-- ===== src/Tests/Tables.antt =====
-- Examples of the registries and the contexts.
use libmacro.Prelude.{
  ℕ, ◌+◌, ◌≡◌, refl, List, [], ◌∷◌, not, ◌&&◌, ◌||◌, ◌==◌, if◌then◌else◌, arith, count, true, none,
  some,
}
use libmacro.Text.{text, text_eq}
use libmacro.Error.{Result, ok, throw, einval}
use libmacro.Registry.Macros.{named, in_turn, interrupt_macros, interrupt_macros_lem}
use libmacro.Registry.Macros
use libmacro.Registry.Signals.{Store, SignalAllocator, allocate, another, deallocate}
use libmacro.Registry.Signals.Answers.{
  Mapping, by_name, by_instance, mapped, made_by, registry_answers,
}
use libmacro.Signals.Interrupting.{new_interrupt, send}
use libmacro.Context.{Instances, construct, destruct, instance_of, has_instance}
use libmacro.Context.Existing.{IsConsistent, construct-destruct-IsConsistent}
use libmacro.Context.Latest.{
  Event, constructed, destructed, replay, is_alive, IsHistory, instance_latest,
}

-- Two names for one macro, and one for another
abbrev names : Macros.Table
names = (text "a", 3) ∷ (text "b", 4) ∷ (text "c", 3) ∷ []

abbrev counted : ℕ → ℕ → Result ℕ
counted macro calls = ok (calls + macro)

interrupt_macros_lem_example :
    (macros : List ℕ) × (interrupt_macros counted names 0 ≡ in_turn counted macros 0)
    × ((a : ℕ) → count a macros ≡ (if named a names then 1 else 0))
interrupt_macros_lem_example = interrupt_macros_lem counted names 0

-- A store that counts the signals that are given back
abbrev store : Store ℕ
store = record {
  name_of = λ p. if p == 9 then text "z" else text "k";
  dispatcher_of = λ p. 0;
  world = 0;
}

abbrev allocator : SignalAllocator ℕ
allocator = record {
  allocate_fn = λ s. (7, s);
  deallocate_fn = λ p s. record s { world = s.world + 1 };
  dispatcher_ptr = 20;
}

-- An allocator for the name of the signal 5, which has been given another one before
abbrev mappings : List (Mapping ℕ)
mappings =
    by_instance 5 allocator ∷ by_name (text "k") (record allocator { dispatcher_ptr = 0 }) ∷ []

registry_answers_example :
    (allocate none (mapped store mappings) store ≡ ok (0, store))
    × (another 5 (mapped store mappings) store ≡ made_by (some allocator) store)
    × (deallocate 9 (mapped store mappings) store ≡ throw einval)
unfolding text_eq
registry_answers_example = registry_answers mappings none 5 9 store

abbrev one_instance : Instances
one_instance = record { stack = 4 ∷ []; set = 4 ∷ [] }

one_instance-IsConsistent : IsConsistent one_instance
one_instance-IsConsistent = record { same = λ c. refl; once = λ c. ground arith }

one_instance-kept :
    IsConsistent (construct 6 one_instance)
    × IsConsistent (destruct 4 one_instance)
    × ((c : ℕ)
        → (has_instance c (construct 6 one_instance) ≡ (6 == c || has_instance c one_instance))
          × (has_instance c (destruct 4 one_instance)
              ≡ (not (4 == c) && has_instance c one_instance)))
one_instance-kept =
    construct-destruct-IsConsistent 6 4 one_instance one_instance-IsConsistent
      (unfold has_instance in refl)

-- Three contexts, of which the last is destructed, and then one is constructed at its address and
-- destructed as well.
abbrev history : List Event
history =
    destructed 6 ∷ constructed 6 ∷ destructed 6 ∷ constructed 6 ∷ constructed 5 ∷ constructed 4 ∷ []

history-IsHistory : IsHistory history
history-IsHistory = ((((((tt, refl), refl), refl), refl), refl), refl)

instance_latest_example :
    (instance_of (replay history) ≡ ok 5)
    × ((c : ℕ) → has_instance c (replay history) ≡ is_alive c history)
    × ((c : ℕ) → instance_of (replay history) ≡ ok c → has_instance c (replay history) ≡ true)
instance_latest_example = instance_latest history history-IsHistory

-- An interrupt signal without a target does nothing, and one with a target interrupts it once.
interrupt_nobody : send (λ target value calls. ok (calls + 1)) new_interrupt 0 ≡ ok 0
unfolding send
interrupt_nobody = refl

interrupt_once :
    send (λ target value calls. ok (calls + 1)) (record new_interrupt { target = 3 }) 0 ≡ ok 1
unfolding send
interrupt_once = refl
