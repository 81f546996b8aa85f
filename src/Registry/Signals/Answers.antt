-- ===== src/Registry/Signals/Answers.antt =====
-- The answers of a signal registry, told from the series of its mappings.
use libmacro.Prelude.{
  ℕ, ◌≡◌, ap, refl, List, [], ◌∷◌, Option, none, some, ◌==◌, if◌then◌else◌, arith,
}
use libmacro.Text.{Text, text_eq}
use libmacro.Text.Laws.{text_eq_same}
use libmacro.Error.{Result, ok, throw, enomem, einval}
use libmacro.Assoc.{lookup, lookup-insert}
use libmacro.Macro.Dispatching.{update}
use libmacro.Registry.Signals.{
  Store, SignalAllocator, Table, hidden, map, map_instance, allocate, allocate_with, another,
  deallocate,
}

-- A call of one `map` or the other
pub data Mapping (W : Type 0) : Type 0 where
  by_name : Text → SignalAllocator W → Mapping W
  by_instance : ℕ → SignalAllocator W → Mapping W

module _ {W : Type 0} where
  -- A new registry after some calls, the last of which stands first, while the signals have their
  -- names
  abbrev pub mapped : Store W → List (Mapping W) → Table W
  mapped s [] = []
  mapped s (by_name name a ∷ calls) = map name a (mapped s calls)
  mapped s (by_instance ptr a ∷ calls) = map_instance ptr a s (mapped s calls)

  -- The allocator of the last call for a name
  abbrev pub last_for : Store W → Text → List (Mapping W) → Option (SignalAllocator W)
  last_for s name [] = none
  last_for s name (by_name n a ∷ calls) = if text_eq n name then some a else last_for s name calls
  last_for s name (by_instance ptr a ∷ calls) =
      if text_eq (s.name_of ptr) name then some a else last_for s name calls

  -- Null without an allocator, ENOMEM if the allocator returns null, and else the new signal, with
  -- the dispatcher of the allocator
  abbrev pub made_by : Option (SignalAllocator W) → Store W → Result (ℕ × Store W)
  made_by none s = ok (0, s)
  made_by (some a) s =
      if (a.allocate_fn s).0 == 0
      then throw enomem
      else ok (
        (a.allocate_fn s).0,
        record (a.allocate_fn s).1 {
          dispatcher_of =
              update ((a.allocate_fn s).1).dispatcher_of (a.allocate_fn s).0 a.dispatcher_ptr;
        },
      )

  -- EINVAL without an allocator, and else what it leaves
  abbrev pub given_to : Option (SignalAllocator W) → ℕ → Store W → Result (Store W)
  given_to none ptr s = throw einval
  given_to (some a) ptr s = ok (a.deallocate_fn ptr s)

  lookup-mapped :
      (s : Store W) (name : Text) (calls : List (Mapping W))
      → lookup text_eq name (mapped s calls) ≡ last_for s name calls
  unfolding lookup map map_instance
  lookup-mapped s name [] = refl
  lookup-mapped s name (by_name n a ∷ calls) =
      let found = lookup-insert text_eq text_eq_same n name a (mapped s calls) in
      ground (arith, found, lookup-mapped s name calls)
  lookup-mapped s name (by_instance ptr a ∷ calls) =
      let found = lookup-insert text_eq text_eq_same (s.name_of ptr) name a (mapped s calls) in
      ground (arith, found, lookup-mapped s name calls)

  found_made :
      (o : Option (SignalAllocator W)) (s : Store W)
      → elim o [ none ↦ ok (0, s) | some a ↦ allocate_with a s ] ≡ made_by o s
  unfolding allocate_with
  found_made none s = refl
  found_made (some a) s = refl

  found_given :
      (o : Option (SignalAllocator W)) (ptr : ℕ) (s : Store W)
      → elim o [ none ↦ throw einval | some a ↦ ok (a.deallocate_fn ptr s) ] ≡ given_to o ptr s
  found_given none ptr s = refl
  found_given (some a) ptr s = refl

  made_for :
      (calls : List (Mapping W)) (name : Option Text) (s : Store W)
      → allocate name (mapped s calls) s ≡ made_by (last_for s (hidden name) calls) s
  unfolding allocate
  made_for calls name s =
      rw (lookup-mapped s (hidden name) calls, allocate)
        (found_made (last_for s (hidden name) calls) s)

  -- After any series of calls of the two `map`, while the signals have their names, a request for
  -- a name, for the empty one if it is null, is answered with null if no call was for it, with
  -- ENOMEM if the allocator of the last call for it returns null, and else with what that
  -- allocator returns, which then has the allocator's dispatcher; a request for another of a
  -- signal is one for its name, and null for null; a signal goes back to the allocator of the
  -- last call for its name, with EINVAL if there is none, and null is not given back.
  pub registry_answers :
      (calls : List (Mapping W)) (name : Option Text) (proto ptr : ℕ) (s : Store W)
      → (allocate name (mapped s calls) s ≡ made_by (last_for s (hidden name) calls) s)
        × (another proto (mapped s calls) s
            ≡ (if proto == 0 then ok (0, s) else made_by (last_for s (s.name_of proto) calls) s))
        × (deallocate ptr (mapped s calls) s
            ≡ (if ptr == 0 then ok s else given_to (last_for s (s.name_of ptr) calls) ptr s))
  unfolding another deallocate
  registry_answers calls name proto ptr s = (
    made_for calls name s,
    ap (λ made. if proto == 0 then ok (0, s) else made) (made_for calls (some (s.name_of proto)) s),
    rw (lookup-mapped s (s.name_of ptr) calls, deallocate)
        (ap (λ back. if ptr == 0 then ok s else back)
          (found_given (last_for s (s.name_of ptr) calls) ptr s)),
  )
