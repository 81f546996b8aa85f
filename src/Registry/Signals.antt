-- ===== src/Registry/Signals.antt =====
-- src/signal_registry.cpp and mcr/allocator.h: the allocators of signals by name. An allocator is a
-- pair of functions that the user gives, on a store `W` of the user's.
pub mod Answers
use libmacro.Prelude.{ℕ, ◌≡◌, ◌≢◌, List, [], Option, none, some, ◌==◌, if◌then◌else◌, arith}
use libmacro.Text.{Text, text_eq}
use libmacro.Text.Laws.{text_eq_same}
use libmacro.Error.{Result, ok, throw, enomem, einval}
use libmacro.Assoc.{lookup, insert, lookup-insert}
use libmacro.Macro.Dispatching.{update}

-- `Signal::name` and `Signal::dispatcherPtr` of the signals at each address
pub record Store (W : Type 0) : Type 0 where
  pub name_of : ℕ → Text
  pub dispatcher_of : ℕ → ℕ
  pub world : W

pub record SignalAllocator (W : Type 0) : Type 0 where
  pub allocate_fn : Store W → ℕ × Store W
  pub deallocate_fn : ℕ → Store W → Store W
  pub dispatcher_ptr : ℕ

abbrev pub Table : Type 0 → Type 0
Table W = List (Text × SignalAllocator W)

-- The name of a null pointer is that of the hidden signal.
abbrev pub hidden : Option Text → Text
hidden none = []
hidden (some name) = name

module _ {W : Type 0} where
  -- `TSignalAllocator`; `make` and `destroy` are the `new` and the `delete` of the class.
  abbrev pub typed_allocator :
      (Store W → ℕ × Store W) → (ℕ → Store W → Store W) → ℕ → SignalAllocator W
  typed_allocator make destroy dispatcher = record {
    allocate_fn = make;
    deallocate_fn = λ ptr s. if ptr == 0 then s else destroy ptr s;
    dispatcher_ptr = dispatcher;
  }

  unfoldable pub map : Text → SignalAllocator W → Table W → Table W
  map name allocator t = insert text_eq name allocator t

  -- `map(const Signal &, …)`
  unfoldable pub map_instance : ℕ → SignalAllocator W → Store W → Table W → Table W
  unfolding map
  map_instance instance_ptr allocator s t = map (s.name_of instance_ptr) allocator t

  -- A signal from an allocator that has been found
  unfoldable pub allocate_with : SignalAllocator W → Store W → Result (ℕ × Store W)
  allocate_with a s =
      let (ptr, s') = a.allocate_fn s in
      if ptr == 0
      then throw enomem
      else ok (ptr, record s' { dispatcher_of = update s'.dispatcher_of ptr a.dispatcher_ptr })

  unfoldable pub allocate : Option Text → Table W → Store W → Result (ℕ × Store W)
  unfolding allocate_with
  allocate name t s = elim (lookup text_eq (hidden name) t) [
    | none ↦ ok (0, s)
    | some a ↦ allocate_with a s
  ]

  unfoldable pub another : ℕ → Table W → Store W → Result (ℕ × Store W)
  unfolding allocate
  another ptr t s = if ptr == 0 then ok (0, s) else allocate (some (s.name_of ptr)) t s

  unfoldable pub deallocate : ℕ → Table W → Store W → Result (Store W)
  deallocate ptr t s = if ptr == 0 then ok s else elim (lookup text_eq (s.name_of ptr) t) [
    | none ↦ throw einval
    | some a ↦ ok (a.deallocate_fn ptr s)
  ]
