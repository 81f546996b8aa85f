-- ===== src/Registry/Triggers.antt =====
-- src/trigger_registry.cpp and mcr/allocator.h: the allocators of triggers by name. An allocator is a
-- pair of functions that the user gives, on a store `W` of the user's.
use libmacro.Prelude.{ℕ, ◌≡◌, ◌≢◌, List, [], Option, none, some, ◌==◌, if◌then◌else◌, arith}
use libmacro.Text.{Text, text_eq}
use libmacro.Text.Laws.{text_eq_same}
use libmacro.Error.{Result, ok, throw, enomem, einval}
use libmacro.Assoc.{lookup, insert, lookup-insert}

-- `Trigger::name` of the trigger at each address
pub record Store (W : Type 0) : Type 0 where
  pub name_of : ℕ → Text
  pub world : W

pub record TriggerAllocator (W : Type 0) : Type 0 where
  pub allocate_fn : Store W → ℕ × Store W
  pub deallocate_fn : ℕ → Store W → Store W

abbrev pub Table : Type 0 → Type 0
Table W = List (Text × TriggerAllocator W)

-- The name of a null pointer is that of the hidden trigger.
abbrev pub hidden : Option Text → Text
hidden none = []
hidden (some name) = name

module _ {W : Type 0} where
  -- `TTriggerAllocator`; `make` and `destroy` are the `new` and the `delete` of the class.
  abbrev pub typed_allocator :
      (Store W → ℕ × Store W) → (ℕ → Store W → Store W) → TriggerAllocator W
  typed_allocator make destroy = record {
    allocate_fn = make;
    deallocate_fn = λ ptr s. if ptr == 0 then s else destroy ptr s;
  }

  unfoldable pub map : Text → TriggerAllocator W → Table W → Table W
  map name allocator t = insert text_eq name allocator t

  -- `map(const Trigger &, …)`
  unfoldable pub map_instance : ℕ → TriggerAllocator W → Store W → Table W → Table W
  unfolding map
  map_instance instance_ptr allocator s t = map (s.name_of instance_ptr) allocator t

  -- A trigger from an allocator that has been found
  unfoldable pub allocate_with : TriggerAllocator W → Store W → Result (ℕ × Store W)
  allocate_with a s =
      let (ptr, s') = a.allocate_fn s in if ptr == 0 then throw enomem else ok (ptr, s')

  unfoldable pub allocate : Option Text → Table W → Store W → Result (ℕ × Store W)
  unfolding allocate_with
  allocate name t s = elim (lookup text_eq (hidden name) t) [
    | none ↦ ok (0, s)
    | some a ↦ allocate_with a s
  ]

  unfoldable pub another : ℕ → Table W → Store W → Result (ℕ × Store W)
  unfolding allocate
  another ptr t s = if ptr == 0 then ok (0, s) else allocate (some (s.name_of ptr)) t s

  unfoldable pub deallocate : ℕ → Table W → Store W → Result (Store W)
  deallocate ptr t s = if ptr == 0 then ok s else elim (lookup text_eq (s.name_of ptr) t) [
    | none ↦ throw einval
    | some a ↦ ok (a.deallocate_fn ptr s)
  ]

  -- After an allocator has been mapped to a name, a request for the name goes to that allocator
  -- (which fails with ENOMEM if it returns null), one for another name to what it went to before,
  -- and a null name is a request for the empty name.
  pub request-map :
      (name : Text) (other : Option Text) (a : TriggerAllocator W) (t : Table W) (s : Store W)
      → allocate other (map name a t) s
        ≡ (if text_eq name (hidden other) then allocate_with a s else allocate other t s)
  unfolding allocate map
  request-map name other a t s =
      let found = lookup-insert text_eq text_eq_same name (hidden other) a t in
      ground (arith, found)

  -- Once the name of a trigger has been mapped to an allocator, another trigger is made by it, and
  -- every trigger that is not null goes back to it if it has that name, and otherwise to where it
  -- went before, EINVAL if its name has no allocator.
  pub another-derequest-map :
      (proto ptr : ℕ) (a : TriggerAllocator W) (t : Table W) (s : Store W)
      → proto ≢ 0
      → (another proto (map_instance proto a s t) s ≡ allocate_with a s)
        × (deallocate ptr (map_instance proto a s t) s ≡ (
            if ptr == 0
            then ok s
            else if text_eq (s.name_of proto) (s.name_of ptr)
            then ok (a.deallocate_fn ptr s)
            else deallocate ptr t s))
  unfolding another map_instance deallocate
  another-derequest-map proto ptr a t s real =
      let name = s.name_of proto in
      let made = request-map name (some name) a t s in
      let same = text_eq_same.reflexive name in
      let found = lookup-insert text_eq text_eq_same name (s.name_of ptr) a t in
      (ground (arith, made, same), ground (arith, found))
