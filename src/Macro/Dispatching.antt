-- ===== src/Macro/Dispatching.antt =====
-- src/macro.cpp: how a macro registers itself and its triggers with dispatchers. A dispatcher is
-- of any class that implements `IDispatcher`; the objects stand in a table from their addresses.
pub mod Removal
pub mod Addition
pub mod Registration
pub mod Preservation
use libmacro.Prelude.{ℕ, List, [], ◌∷◌, map, Bool, true, false, ◌||◌, ◌==◌, if◌then◌else◌, has}
use libmacro.Error.{Result, ok, throw, crash, ◌>>=◌}
use libmacro.Dispatcher.Interface.{IDispatcher}
use libmacro.Macro.State.{Macro, enabled}

-- What the macro can reach: the generic dispatcher of a context, the dispatcher of a signal, the
-- actor of a trigger, and the dispatchers.
pub record Heap (D : Type 0) : Type 0 where
  pub generic_of : ℕ → ℕ
  pub dispatcher_of : ℕ → ℕ
  pub actor_of : ℕ → ℕ
  pub net : ℕ → D

abbrev pub update {ℓ} : {A : Type ℓ} → (ℕ → A) → ℕ → A → ℕ → A
update f a v b = if a == b then v else f b

abbrev pub is_empty {ℓ} : {A : Type ℓ} → List A → Bool
is_empty [] = true
is_empty (x ∷ xs) = false

-- `_context->genericDispatcher()`
abbrev pub generic_dispatcher_of : {D : Type 0} → Macro → Heap D → Result ℕ
generic_dispatcher_of m h = if m.context == 0 then crash else ok (h.generic_of m.context)

module _ {D : Type 0} (i : IDispatcher D) where
  open i use {add_pair, remove_receiver}

  abbrev pub unregister : ℕ → ℕ → (ℕ → D) → ℕ → D
  unregister d receiver net = update net d (remove_receiver receiver (net d))

  abbrev pub register : ℕ → ℕ → ℕ → (ℕ → D) → ℕ → D
  register d signal receiver net = update net d (add_pair signal receiver (net d))

  -- `removeDispatcherTriggers`
  pub remove_triggers : List ℕ → ℕ → (ℕ → D) → ℕ → D
  remove_triggers [] d net = net
  remove_triggers (t ∷ ts) d net = remove_triggers ts d (unregister d t net)

  -- The loop of `_removeDispatch` over the dispatchers of the activators; `seen` is `dispset`.
  pub remove_loop : ℕ → List ℕ → List ℕ → List ℕ → (ℕ → D) → ℕ → D
  remove_loop this triggers [] seen net = net
  remove_loop this triggers (d ∷ ds) seen net =
      let again = remove_loop this triggers ds seen net in
      let first =
        remove_loop this triggers ds (d ∷ seen)
          (remove_triggers triggers d (unregister d this net)) in
      if d == 0 || has d seen then again else first

  abbrev pub unregister_generic : ℕ → ℕ → (ℕ → D) → ℕ → D
  unregister_generic this g net = if g == 0 then net else unregister g this net

  -- `_removeDispatch`
  unfoldable pub remove_dispatch : ℕ → Macro → Heap D → Result (Heap D)
  unfolding remove_triggers remove_loop
  remove_dispatch this m h = do
    g ← generic_dispatcher_of m h
    ok (record h {
      net =
          remove_loop this m.triggers (map h.dispatcher_of m.activators) []
            (unregister_generic this g h.net);
    })

  -- `_addDispatch(Signal &)`
  unfoldable pub add_signal : ℕ → ℕ → (ℕ → ℕ) → (ℕ → D) → ℕ → D
  add_signal this signal dispatcher_of net =
      if dispatcher_of signal == 0 then net else register (dispatcher_of signal) signal this net

  -- `_addDispatch(Trigger &)`, with the generic dispatcher at hand
  unfoldable pub add_trigger : ℕ → ℕ → (ℕ → D) → ℕ → D
  add_trigger trigger g net = if g == 0 then net else register g 0 trigger net

  pub add_triggers : List ℕ → ℕ → (ℕ → D) → ℕ → D
  unfolding add_trigger
  add_triggers [] g net = net
  add_triggers (t ∷ ts) g net = add_triggers ts g (add_trigger t g net)

  -- `_addDispatch(Signal &, Trigger &)` for each trigger
  pub pair_triggers : List ℕ → ℕ → (ℕ → ℕ) → (ℕ → D) → ℕ → D
  unfolding add_signal
  pair_triggers [] signal dispatcher_of net = net
  pair_triggers (t ∷ ts) signal dispatcher_of net =
      pair_triggers ts signal dispatcher_of (add_signal t signal dispatcher_of net)

  -- `pairActivatorsAndTriggers`
  pub pair_loop : ℕ → List ℕ → List ℕ → (ℕ → ℕ) → (ℕ → D) → ℕ → D
  unfolding add_signal pair_triggers
  pair_loop this triggers [] dispatcher_of net = net
  pair_loop this triggers (a ∷ activators) dispatcher_of net =
      pair_loop this triggers activators dispatcher_of (
        if is_empty triggers
        then add_signal this a dispatcher_of net
        else pair_triggers triggers a dispatcher_of net)

  -- `_addDispatch()` without activators
  add_generic : ℕ → Macro → Heap D → Result (Heap D)
  unfolding add_triggers
  add_generic this m h = do
    g ← generic_dispatcher_of m h
    let lone = if g == 0 then h.net else register g 0 this h.net
    ok (record h { net = if is_empty m.triggers then lone else add_triggers m.triggers g h.net })

  -- `_addDispatch()`
  unfoldable pub add_dispatch : ℕ → Macro → Heap D → Result (Heap D)
  unfolding add_generic pair_loop
  add_dispatch this m h =
      if is_empty m.activators
      then add_generic this m h
      else ok (record h { net = pair_loop this m.triggers m.activators h.dispatcher_of h.net })

  -- `_applyDispatch()` from the removal on
  unfoldable pub reapply_dispatch : ℕ → Macro → Heap D → Result (Heap D)
  reapply_dispatch this m h = do
    h' ← remove_dispatch this m h
    if enabled m then add_dispatch this m h' else ok h'

  -- `_applyDispatch()`
  unfoldable pub apply_dispatch : ℕ → Macro → Heap D → Result (Heap D)
  apply_dispatch this m h = if m.apply_dispatch_flag then reapply_dispatch this m h else ok h
