-- ===== src/Macro/Dispatching/Addition.antt =====
-- What `_addDispatch` puts into the dispatchers.
use libmacro.Prelude.{
  ℕ, ◌≡◌, ◌≢◌, refl, List, [], ◌∷◌, map, Bool, not, ◌&&◌, ◌||◌, ◌==◌, if◌then◌else◌, arith, has,
  Bool-cases, inl, inr,
}
use libmacro.Error.{ok}
use libmacro.Dispatcher.Interface.{IDispatcher}
use libmacro.Macro.State.{Macro}
use libmacro.Macro.Dispatching.{
  Heap, register, is_empty, add_signal, add_trigger, add_triggers, pair_triggers, pair_loop,
  add_dispatch,
}

-- Who is to be registered: the triggers, or the macro itself if it has none.
abbrev pub receivers_of : ℕ → List ℕ → ℕ → Bool
receivers_of this triggers r = if is_empty triggers then this == r else has r triggers

-- Whether the addition registers `r` with the dispatcher `d`: with the dispatchers of the
-- activators, or with the generic one if there is no activator.
abbrev pub added : ℕ → List ℕ → List ℕ → ℕ → ℕ → ℕ → Bool
added this triggers targets g d r =
    not (d == 0)
    && (if is_empty targets then g == d else has d targets)
    && receivers_of this triggers r

is_empty-map : (f : ℕ → ℕ) (xs : List ℕ) → is_empty (map f xs) ≡ is_empty xs
is_empty-map f [] = refl
is_empty-map f (x ∷ xs) = refl

module _ {D : Type 0} (i : IDispatcher D) where
  open i use {registered, registered-add}

  add_triggers_lem :
      (ts : List ℕ) (g e r : ℕ) (net : ℕ → D)
      → registered r (add_triggers i ts g net e)
        ≡ (registered r (net e) || (not (g == 0) && g == e && has r ts))
  unfolding add_triggers
  add_triggers_lem [] g e r net = ground arith
  add_triggers_lem (t ∷ ts) g e r net = ground (
    arith,
    add_triggers_lem ts g e r (add_trigger i t g net),
    registered-add 0 t r (net e),
    registered-add 0 t r (net g),
  )

  pair_triggers_lem :
      (ts : List ℕ) (a e r : ℕ) (to : ℕ → ℕ) (net : ℕ → D)
      → registered r (pair_triggers i ts a to net e)
        ≡ (registered r (net e) || (not (to a == 0) && to a == e && has r ts))
  unfolding pair_triggers
  pair_triggers_lem [] a e r to net = ground arith
  pair_triggers_lem (t ∷ ts) a e r to net = ground (
    arith,
    pair_triggers_lem ts a e r to (add_signal i t a to net),
    registered-add a t r (net e),
    registered-add a t r (net (to a)),
  )

  pair_loop_lem :
      (this : ℕ) (ts sigs : List ℕ) (e r : ℕ) (to : ℕ → ℕ) (net : ℕ → D)
      → registered r (pair_loop i this ts sigs to net e)
        ≡ (registered r (net e) || (not (e == 0) && has e (map to sigs) && receivers_of this ts r))
  unfolding pair_loop
  pair_loop_lem this ts [] e r to net = ground arith
  pair_loop_lem this [] (a ∷ sigs) e r to net = ground (
    arith,
    pair_loop_lem this [] sigs e r to (add_signal i this a to net),
    registered-add a this r (net e),
    registered-add a this r (net (to a)),
  )
  pair_loop_lem this (t ∷ ts) (a ∷ sigs) e r to net = ground (
    arith,
    pair_loop_lem this (t ∷ ts) sigs e r to (pair_triggers i (t ∷ ts) a to net),
    pair_triggers_lem (t ∷ ts) a e r to net,
  )

  -- With a context, `_addDispatch` succeeds and adds exactly these registrations: the triggers
  -- (or the macro, if it has none) with the dispatchers of the activators (or with the generic
  -- one, if there is no activator).
  pub add_dispatch_lem :
      (this : ℕ) (m : Macro) (h : Heap D)
      → m.context ≢ 0
      → (h' : Heap D) × (add_dispatch i this m h ≡ ok h')
        × (h'.dispatcher_of ≡ h.dispatcher_of)
        × (h'.generic_of ≡ h.generic_of)
        × (h'.actor_of ≡ h.actor_of)
        × ((d r : ℕ)
            → registered r (h'.net d) ≡ (
                registered r (h.net d)
                || added this m.triggers
                    (map h.dispatcher_of m.activators)
                    (h.generic_of m.context)
                    d
                    r))
  unfolding add_dispatch
  add_dispatch_lem this m h ctx = elim (Bool-cases (is_empty m.activators)) [
    | inl alone ↦ (
      record h {
        net =
            if is_empty m.triggers
            then (if generic == 0 then h.net else register i generic 0 this h.net)
            else add_triggers i m.triggers generic h.net;
      },
      ground arith,
      refl,
      refl,
      refl,
      λ d r.
          rw (is_empty-map h.dispatcher_of m.activators, alone)
            (ground (
              arith,
              add_triggers_lem m.triggers generic d r h.net,
              registered-add 0 this r (h.net generic),
            )),
    )
    | inr paired ↦ (
      record h { net = pair_loop i this m.triggers m.activators h.dispatcher_of h.net },
      rw paired,
      refl,
      refl,
      refl,
      λ d r.
          rw (is_empty-map h.dispatcher_of m.activators, paired)
            (pair_loop_lem this m.triggers m.activators d r h.dispatcher_of h.net),
    )
  ]
    where
      generic : ℕ
      generic = h.generic_of m.context
