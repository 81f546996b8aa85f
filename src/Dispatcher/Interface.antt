-- ===== src/Dispatcher/Interface.antt =====
-- mcr/dispatcher.h: what the clients of `IDispatcher` rely on, and `Dispatcher` as an instance.
use libmacro.Prelude.{ℕ, ◌≡◌, ◌≢◌, Bool, not, ◌&&◌, ◌||◌, ◌==◌, arith, has}
use libmacro.Dispatcher.{Dispatcher, add, remove}
use libmacro.Dispatcher.Receivers.{has-add, has-remove}

-- A dispatcher of any class: a receiver is registered once it has been added, for any signal, and
-- until it is removed, which removes it "from all registrations".
pub record IDispatcher {ℓ} (D : Type ℓ) : Type ℓ where
  pub add_pair : ℕ → ℕ → D → D
  pub remove_receiver : ℕ → D → D
  pub registered : ℕ → D → Bool
  pub registered-add :
      (signal q r : ℕ) (d : D) → registered r (add_pair signal q d) ≡ (q == r || registered r d)
  pub registered-remove :
      (q r : ℕ) (d : D)
      → q ≢ 0
      → registered r (remove_receiver q d) ≡ (not (q == r) && registered r d)

abbrev pub is_receiver : ℕ → Dispatcher → Bool
is_receiver r d = has r d.receivers

pub is_receiver-remove :
    (q r : ℕ) (d : Dispatcher)
    → q ≢ 0
    → is_receiver r (remove q d) ≡ (not (q == r) && is_receiver r d)
is_receiver-remove q r d n = ground (arith, has-remove q r d)

-- The generic dispatcher keeps the promises of the interface.
unfoldable pub generic_dispatcher : IDispatcher Dispatcher
generic_dispatcher = record {
  add_pair = add;
  remove_receiver = remove;
  registered = is_receiver;
  registered-add = has-add;
  registered-remove = is_receiver-remove;
}
