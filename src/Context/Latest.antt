-- ===== src/Context/Latest.antt =====
-- Which context is the current one, told from what has been constructed and destructed so far.
use libmacro.Prelude.{
  ℕ, ◌≤◌, ◌≡◌, ◌∙◌, ap, sym, refl, subst, List, [], ◌∷◌, ◌++◌, Bool, Bool-cases, inl, inr, true,
  false, not, ◌&&◌, ◌||◌, ◌==◌, if◌then◌else◌, arith, has, count, has-without, without, Option,
  none, some,
}
use libmacro.Error.{Result, ok, throw, efault, ok_inj}
use libmacro.Context.{
  Instances, no_instances, erase_first, construct, destruct, last, back, instance_of, has_instance,
}
use libmacro.Context.Existing.{
  IsConsistent, construct-destruct-IsConsistent, destruct-IsConsistent, last-append_one, has-count,
}

pub data Event : Type 0 where
  constructed destructed : ℕ → Event

-- The contexts after some events, the last of which stands first
abbrev pub replay : List Event → Instances
replay [] = no_instances
replay (constructed c ∷ es) = construct c (replay es)
replay (destructed c ∷ es) = destruct c (replay es)

-- Whether the last event of a context is its construction
abbrev pub is_alive : ℕ → List Event → Bool
is_alive c [] = false
is_alive c (constructed d ∷ es) = d == c || is_alive c es
is_alive c (destructed d ∷ es) = not (d == c) && is_alive c es

-- The last construction of a context that is not destructed later; `gone` are those that are.
abbrev pub latest : List ℕ → List Event → Option ℕ
latest gone [] = none
latest gone (constructed c ∷ es) = if has c gone then latest (without c gone) es else some c
latest gone (destructed c ∷ es) = latest (c ∷ gone) es

-- A context is constructed where none exists, and only one that exists is destructed.
abbrev pub IsHistory : List Event → Type 0
IsHistory [] = Unit
IsHistory (constructed c ∷ es) = IsHistory es × (is_alive c es ≡ false)
IsHistory (destructed c ∷ es) = IsHistory es × (is_alive c es ≡ true)

abbrev pub or_efault : Option ℕ → Result ℕ
or_efault none = throw efault
or_efault (some c) = ok c

no_instances-IsConsistent : IsConsistent no_instances
no_instances-IsConsistent = record { same = λ c. refl; once = λ c. omega arith }

replay-IsConsistent :
    (es : List Event)
    → IsHistory es
    → IsConsistent (replay es) × ((c : ℕ) → has_instance c (replay es) ≡ is_alive c es)
unfolding has_instance
replay-IsConsistent [] v = (no_instances-IsConsistent, λ c. refl)
replay-IsConsistent (constructed c ∷ es) (v, fresh) =
    let (kept, alive) = replay-IsConsistent es v in
    let (after, _, told) = construct-destruct-IsConsistent c c (replay es) kept (alive c ∙ fresh) in
    (after, λ d. (told d).0 ∙ ap (λ b. c == d || b) (alive d))
replay-IsConsistent (destructed c ∷ es) (v, there) =
    let (kept, alive) = replay-IsConsistent es v in
    let (after, told) = destruct-IsConsistent c (replay es) kept in
    (after, λ d. told d ∙ ap (λ b. not (c == d) && b) (alive d))

-- The contexts of a stack that are not in a list
abbrev minus : List ℕ → List ℕ → List ℕ
minus gone [] = []
minus gone (c ∷ cs) = if has c gone then minus gone cs else c ∷ minus gone cs

abbrev last_of : List ℕ → Option ℕ
last_of [] = none
last_of (c ∷ cs) = some (last c cs)

minus-append_one :
    (gone : List ℕ) (c : ℕ) (cs : List ℕ)
    → minus gone (cs ++ (c ∷ []))
      ≡ (if has c gone then minus gone cs else minus gone cs ++ (c ∷ []))
minus-append_one gone c [] = ground arith
minus-append_one gone c (d ∷ cs) = ground (arith, minus-append_one gone c cs)

minus-without :
    (gone : List ℕ) (c : ℕ) (cs : List ℕ)
    → has c cs ≡ false
    → minus (without c gone) cs ≡ minus gone cs
minus-without gone c [] h = refl
minus-without gone c (d ∷ cs) h = ground (arith, minus-without gone c cs, has-without c d gone)

minus_absent :
    (gone : List ℕ) (c : ℕ) (cs : List ℕ) → has c cs ≡ false → minus (c ∷ gone) cs ≡ minus gone cs
minus_absent gone c [] h = refl
minus_absent gone c (d ∷ cs) h = ground (arith, minus_absent gone c cs)

minus-erase_first :
    (gone : List ℕ) (c : ℕ) (cs : List ℕ)
    → count c cs ≤ 1
    → minus gone (erase_first c cs) ≡ minus (c ∷ gone) cs
unfolding erase_first
minus-erase_first gone c [] h = refl
minus-erase_first gone c (d ∷ cs) h =
    ground (arith, minus-erase_first gone c cs, minus_absent gone c cs, has-count c cs, h)

last_of-append_one : (c : ℕ) (cs : List ℕ) → last_of (cs ++ (c ∷ [])) ≡ some c
last_of-append_one c [] = refl
last_of-append_one c (d ∷ cs) = ap some (last-append_one d c cs)

back-last_of : (cs : List ℕ) → back cs ≡ or_efault (last_of cs)
unfolding back
back-last_of [] = refl
back-last_of (c ∷ cs) = refl

-- The contexts that are gone later all exist now.
IsAlive : List ℕ → List Event → Type 0
IsAlive gone es = (c : ℕ) → has c gone ≡ true → is_alive c es ≡ true

stack_alive : (c : ℕ) (es : List Event) → IsHistory es → has c (replay es).stack ≡ is_alive c es
unfolding has_instance
stack_alive c es v = let (kept, alive) = replay-IsConsistent es v in sym (kept.same c) ∙ alive c

latest-last_of :
    (gone : List ℕ) (es : List Event)
    → IsHistory es
    → IsAlive gone es
    → last_of (minus gone (replay es).stack) ≡ latest gone es
unfolding IsAlive construct destruct
latest-last_of gone [] v a = refl
latest-last_of gone (constructed c ∷ es) (v, fresh) a =
    let stack = (replay es).stack in
    let added = minus-append_one gone c stack in
    let absent = stack_alive c es v ∙ fresh in
    elim (Bool-cases (has c gone)) [
      | inl later ↦
          let before =
            latest-last_of (without c gone) es v
              (λ d h. ground (arith, a d, has-without c d gone, h)) in
          let same = minus-without gone c stack absent in
          ap last_of added ∙ ground (arith, later, before, same)
      | inr now ↦ ap last_of added ∙ ground (arith, now, last_of-append_one c (minus gone stack))
    ]
latest-last_of gone (destructed c ∷ es) (v, there) a =
    let (kept, _) = replay-IsConsistent es v in
    ap last_of (minus-erase_first gone c (replay es).stack (kept.once c))
    ∙ latest-last_of (c ∷ gone) es v (λ d h. ground (arith, a d, there, h))

minus_none : (cs : List ℕ) → minus [] cs ≡ cs
minus_none [] = refl
minus_none (c ∷ cs) = ap (λ ds. c ∷ ds) (minus_none cs)

has-last : (c : ℕ) (cs : List ℕ) → has (last c cs) (c ∷ cs) ≡ true
has-last c [] = ground arith
has-last c (d ∷ cs) = ground (arith, has-last d cs)

has-back : (c : ℕ) (cs : List ℕ) → back cs ≡ ok c → has c cs ≡ true
unfolding back
has-back c [] h = absurd (cc)
has-back c (d ∷ cs) h = subst (λ e. has e (d ∷ cs) ≡ true) (ok_inj h) (has-last d cs)

-- After any series of constructions of contexts where none exists and destructions of contexts that
-- exist, `instance()` returns the one last constructed of those that are not destructed since, and
-- throws EFAULT if there is none; `hasInstance` says of each context whether it exists, and it does
-- of the one returned.
pub instance_latest :
    (es : List Event)
    → IsHistory es
    → (instance_of (replay es) ≡ or_efault (latest [] es))
      × ((c : ℕ) → has_instance c (replay es) ≡ is_alive c es)
      × ((c : ℕ) → instance_of (replay es) ≡ ok c → has_instance c (replay es) ≡ true)
unfolding instance_of IsAlive
instance_latest es v =
    let stack = (replay es).stack in
    let (_, alive) = replay-IsConsistent es v in
    (
      back-last_of stack
          ∙ ap (λ cs. or_efault (last_of cs)) (sym (minus_none stack))
          ∙ ap or_efault (latest-last_of [] es v (λ c h. absurd (cc))),
      alive,
      λ c h. alive c ∙ sym (stack_alive c es v) ∙ has-back c stack h,
    )
