-- ===== src/Macro/Dispatching/Preservation.antt =====
-- What a class of dispatchers keeps under its two operations is kept by all that a macro does to its
-- dispatchers.
use libmacro.Prelude.{
  ℕ, List, [], ◌∷◌, map, Bool, true, false, ◌==◌, ◌||◌, has, if◌then◌else◌, Bool-cases, inl, inr,
}
use libmacro.Error.{Result, ok, throw, crash, blocked, ◌>>=◌}
use libmacro.Dispatcher.{Dispatcher}
use libmacro.Dispatcher.Interface.{IDispatcher, generic_dispatcher}
use libmacro.Dispatcher.Receivers.{IsWellFormed, add-IsWellFormed, remove-IsWellFormed}
use libmacro.Macro.State.{Macro, enabled}
use libmacro.Macro.Control.{set_triggers}
use libmacro.Macro.Dispatching.{
  Heap, generic_dispatcher_of, update, is_empty, register, unregister, remove_triggers, remove_loop,
  remove_dispatch, add_signal, add_trigger, add_triggers, pair_triggers, pair_loop, add_generic,
  add_dispatch, reapply_dispatch, apply_dispatch,
}

module _ {D : Type 0} (P : D → Type 0) where
  -- Each dispatcher has the property.
  abbrev pub Everywhere : (ℕ → D) → Type 0
  Everywhere net = (d : ℕ) → P (net d)

  if-lem : (b : Bool) (x y : D) → P x → P y → P (if b then x else y)
  if-lem true x y p q = p
  if-lem false x y p q = q

  update-Everywhere :
      (net : ℕ → D) (d : ℕ) (x : D) → Everywhere net → P x → Everywhere (update net d x)
  update-Everywhere net d x h p e = if-lem (d == e) x (net e) p (h e)

  ifs : (b : Bool) (m n : ℕ → D) → Everywhere m → Everywhere n → Everywhere (if b then m else n)
  ifs true m n p q = p
  ifs false m n p q = q

  module _ (i : IDispatcher D) (added : (s q : ℕ) (d : D) → P d → P (i.add_pair s q d))
      (taken : (q : ℕ) (d : D) → P d → P (i.remove_receiver q d)) where
    unregister_lem : (d q : ℕ) (net : ℕ → D) → Everywhere net → Everywhere (unregister i d q net)
    unregister_lem d q net h = update-Everywhere net d _ h (taken q (net d) (h d))

    register_lem : (d s q : ℕ) (net : ℕ → D) → Everywhere net → Everywhere (register i d s q net)
    register_lem d s q net h = update-Everywhere net d _ h (added s q (net d) (h d))

    triggers_lem :
        (ts : List ℕ) (d : ℕ) (net : ℕ → D)
        → Everywhere net
        → Everywhere (remove_triggers i ts d net)
    unfolding remove_triggers
    triggers_lem [] d net h = h
    triggers_lem (t ∷ ts) d net h = triggers_lem ts d _ (unregister_lem d t net h)

    loop_lem :
        (this : ℕ) (ts ds seen : List ℕ) (net : ℕ → D)
        → Everywhere net
        → Everywhere (remove_loop i this ts ds seen net)
    unfolding remove_loop
    loop_lem this ts [] seen net h = h
    loop_lem this ts (d ∷ ds) seen net h =
        ifs (d == 0 || has d seen) _ _ (loop_lem this ts ds seen net h)
          (loop_lem this ts ds (d ∷ seen) _ (triggers_lem ts d _ (unregister_lem d this net h)))

    add_signal_lem :
        (r s : ℕ) (to : ℕ → ℕ) (net : ℕ → D) → Everywhere net → Everywhere (add_signal i r s to net)
    unfolding add_signal
    add_signal_lem r s to net h = ifs (to s == 0) _ _ h (register_lem (to s) s r net h)

    add_triggers_lem :
        (ts : List ℕ) (g : ℕ) (net : ℕ → D) → Everywhere net → Everywhere (add_triggers i ts g net)
    unfolding add_triggers add_trigger
    add_triggers_lem [] g net h = h
    add_triggers_lem (t ∷ ts) g net h =
        add_triggers_lem ts g _ (ifs (g == 0) _ _ h (register_lem g 0 t net h))

    pair_triggers_lem :
        (ts : List ℕ) (s : ℕ) (to : ℕ → ℕ) (net : ℕ → D)
        → Everywhere net
        → Everywhere (pair_triggers i ts s to net)
    unfolding pair_triggers
    pair_triggers_lem [] s to net h = h
    pair_triggers_lem (t ∷ ts) s to net h =
        pair_triggers_lem ts s to _ (add_signal_lem t s to net h)

    pair_loop_lem :
        (this : ℕ) (ts sigs : List ℕ) (to : ℕ → ℕ) (net : ℕ → D)
        → Everywhere net
        → Everywhere (pair_loop i this ts sigs to net)
    unfolding pair_loop
    pair_loop_lem this ts [] to net h = h
    pair_loop_lem this ts (a ∷ sigs) to net h =
        pair_loop_lem this ts sigs to _
          (ifs (is_empty ts) _ _ (add_signal_lem this a to net h) (pair_triggers_lem ts a to net h))

    -- The dispatchers that a call leaves, if it returns, have the property.
    abbrev pub Keeps : {A : Type 0} → (A → Heap D) → Result A → Type 0
    Keeps heap_of (ok a) = Everywhere ((heap_of a).net)
    Keeps heap_of (throw e) = Unit
    Keeps heap_of crash = Unit
    Keeps heap_of blocked = Unit

    abbrev itself : Heap D → Heap D
    itself h = h

    Keeps-bind :
        {A : Type 0} (heap_of : A → Heap D) (r : Result (Heap D)) (f : Heap D → Result A)
        → Keeps itself r
        → ((h : Heap D) → Everywhere h.net → Keeps heap_of (f h))
        → Keeps heap_of (r >>= f)
    Keeps-bind heap_of (ok h) f k g = g h k
    Keeps-bind heap_of (throw e) f k g = tt
    Keeps-bind heap_of crash f k g = tt
    Keeps-bind heap_of blocked f k g = tt

    Keeps-if :
        (b : Bool) (r s : Result (Heap D))
        → Keeps itself r
        → Keeps itself s
        → Keeps itself (if b then r else s)
    Keeps-if true r s p q = p
    Keeps-if false r s p q = q

    Keeps-generic :
        (m : Macro) (h : Heap D) (f : ℕ → Result (Heap D))
        → ((g : ℕ) → Keeps itself (f g))
        → Keeps itself (generic_dispatcher_of m h >>= f)
    Keeps-generic m h f k = elim (Bool-cases (m.context == 0)) [
      | inl null ↦ simp null tt
      | inr real ↦ simp real (k (h.generic_of m.context))
    ]

    remove_dispatch_kept :
        (this : ℕ) (m : Macro) (h : Heap D)
        → Everywhere h.net
        → Keeps itself (remove_dispatch i this m h)
    unfolding remove_dispatch
    remove_dispatch_kept this m h k = Keeps-generic m h _ (λ g.
        loop_lem this m.triggers (map h.dispatcher_of m.activators) [] _
          (ifs (g == 0) _ _ k (unregister_lem g this h.net k)))

    add_dispatch_kept :
        (this : ℕ) (m : Macro) (h : Heap D)
        → Everywhere h.net
        → Keeps itself (add_dispatch i this m h)
    unfolding add_dispatch add_generic
    add_dispatch_kept this m h k =
        Keeps-if (is_empty m.activators) _ _
          (Keeps-generic m h _ (λ g.
            ifs (is_empty m.triggers) _ _ (ifs (g == 0) _ _ k (register_lem g 0 this h.net k))
              (add_triggers_lem m.triggers g h.net k)))
          (pair_loop_lem this m.triggers m.activators h.dispatcher_of h.net k)

    -- A property that all dispatchers have, and that is kept by the addition and the removal of
    -- a receiver, is kept by `_applyDispatch` in all dispatchers.
    pub apply_dispatch_kept :
        (this : ℕ) (m : Macro) (h : Heap D)
        → Everywhere h.net
        → Keeps itself (apply_dispatch i this m h)
    unfolding apply_dispatch reapply_dispatch
    apply_dispatch_kept this m h k =
        Keeps-if m.apply_dispatch_flag _ _
          (Keeps-bind itself _ _ (remove_dispatch_kept this m h k)
            (λ h' k'. Keeps-if (enabled m) _ _ (add_dispatch_kept this m h' k') k'))
          k

    pub set_triggers_kept :
        (this : ℕ) (array : List ℕ) (m : Macro) (h : Heap D)
        → Everywhere h.net
        → Keeps (λ p. p.1) (set_triggers i this array m h)
    unfolding set_triggers
    set_triggers_kept this array m h k =
        Keeps-bind (λ p. p.1) _ _ (remove_dispatch_kept this m h k)
          (λ h1 k1.
            Keeps-bind (λ p. p.1) _ _
              (apply_dispatch_kept this (record m { triggers = array }) _ k1) (λ h2 k2. k2))

-- The generic dispatcher keeps its receivers a set under the two operations of the interface.
pub generic_added :
    (s q : ℕ) (d : Dispatcher) → IsWellFormed d → IsWellFormed (generic_dispatcher.add_pair s q d)
unfolding generic_dispatcher
generic_added s q d w = add-IsWellFormed s q d w

pub generic_taken :
    (q : ℕ) (d : Dispatcher)
    → IsWellFormed d
    → IsWellFormed (generic_dispatcher.remove_receiver q d)
unfolding generic_dispatcher
generic_taken q d w = remove-IsWellFormed q d w
