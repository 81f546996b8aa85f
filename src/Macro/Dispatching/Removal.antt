-- ===== src/Macro/Dispatching/Removal.antt =====
-- What `_removeDispatch` takes out of the dispatchers, and what it leaves.
use libmacro.Prelude.{
  ℕ, ◌≡◌, ◌≢◌, refl, List, [], ◌∷◌, map, Bool, not, ◌&&◌, ◌||◌, ◌==◌, arith, has, All,
}
use libmacro.Error.{ok}
use libmacro.Dispatcher.Interface.{IDispatcher}
use libmacro.Macro.State.{Macro}
use libmacro.Macro.Dispatching.{
  Heap, unregister, unregister_generic, remove_triggers, remove_loop, remove_dispatch,
}

abbrev pub NotNull : List ℕ → Type 0
NotNull = All λ p. p ≢ 0

-- Whether the removal takes `r` out of the dispatcher `d`: the macro itself leaves its generic
-- dispatcher and those of its activators, a trigger leaves those of the activators only.
abbrev pub removed : ℕ → List ℕ → List ℕ → ℕ → ℕ → ℕ → Bool
removed this triggers targets g d r =
    not (d == 0) && ((this == r && (g == d || has d targets)) || (has r triggers && has d targets))

module _ {D : Type 0} (i : IDispatcher D) where
  open i use {registered, registered-remove}

  remove_triggers_lem :
      (ts : List ℕ) (d e r : ℕ) (net : ℕ → D)
      → NotNull ts
      → registered r (remove_triggers i ts d net e)
        ≡ (registered r (net e) && not (d == e && has r ts))
  unfolding remove_triggers
  remove_triggers_lem [] d e r net n = ground arith
  remove_triggers_lem (t ∷ ts) d e r net n = ground (
    arith,
    remove_triggers_lem ts d e r (unregister i d t net) n.1,
    registered-remove t r (net d) n.0,
    registered-remove t r (net e) n.0,
  )

  remove_loop_lem :
      (this : ℕ) (ts ds seen : List ℕ) (e r : ℕ) (net : ℕ → D)
      → this ≢ 0
      → NotNull ts
      → registered r (remove_loop i this ts ds seen net e) ≡ (
          registered r (net e)
          && not (not (e == 0) && not (has e seen) && has e ds && (this == r || has r ts)))
  unfolding remove_loop
  remove_loop_lem this ts [] seen e r net n ns = ground arith
  remove_loop_lem this ts (d ∷ ds) seen e r net n ns = ground (
    arith,
    remove_loop_lem this ts ds seen e r net n ns,
    remove_loop_lem this ts ds (d ∷ seen) e r (remove_triggers i ts d (unregister i d this net)) n
        ns,
    remove_triggers_lem ts d e r (unregister i d this net) ns,
    registered-remove this r (net e) n,
    registered-remove this r (net d) n,
  )

  -- Where the context, the macro and its triggers are not null, `_removeDispatch` succeeds and
  -- takes exactly these registrations out of the dispatchers: the macro's from its generic
  -- dispatcher and those of its activators, the triggers' from those of the activators.
  pub remove_dispatch_lem :
      (this : ℕ) (m : Macro) (h : Heap D)
      → m.context ≢ 0
      → this ≢ 0
      → NotNull m.triggers
      → (h' : Heap D) × (remove_dispatch i this m h ≡ ok h')
        × (h'.dispatcher_of ≡ h.dispatcher_of)
        × (h'.generic_of ≡ h.generic_of)
        × (h'.actor_of ≡ h.actor_of)
        × ((d r : ℕ)
            → registered r (h'.net d) ≡ (
                registered r (h.net d)
                && not (
                    removed this m.triggers
                      (map h.dispatcher_of m.activators)
                      (h.generic_of m.context)
                      d
                      r)))
  unfolding remove_dispatch
  remove_dispatch_lem this m h ctx n ns = (
    record h {
      net = remove_loop i this m.triggers targets [] (unregister_generic i this generic h.net);
    },
    ground arith,
    refl,
    refl,
    refl,
    λ d r. ground (
      arith,
      remove_loop_lem this m.triggers targets [] d r (unregister_generic i this generic h.net) n ns,
      registered-remove this r (h.net generic) n,
    ),
  )
    where
      targets : List ℕ
      targets = map h.dispatcher_of m.activators

      generic : ℕ
      generic = h.generic_of m.context
