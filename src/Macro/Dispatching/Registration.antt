-- ===== src/Macro/Dispatching/Registration.antt =====
-- `_applyDispatch`: the registrations of a macro after its set-up has changed.
use libmacro.Prelude.{
  ℕ, ◌≡◌, ◌≢◌, refl, sym, ap, ◌∙◌, List, [], ◌∷◌, map, Bool, true, false, not, ◌&&◌, ◌||◌,
  if◌then◌else◌, arith, has, Bool-cases, inl, inr,
}
use libmacro.Error.{ok, crash}
use libmacro.Dispatcher.Interface.{IDispatcher}
use libmacro.Macro.State.{Macro, enabled}
use libmacro.Macro.Dispatching.{Heap, is_empty, remove_dispatch, reapply_dispatch, apply_dispatch}
use libmacro.Macro.Dispatching.Removal.{NotNull, removed, remove_dispatch_lem}
use libmacro.Macro.Dispatching.Addition.{added, add_dispatch_lem}

has-is_empty : (t : ℕ) (xs : List ℕ) → has t xs ≡ true → is_empty xs ≡ false
has-is_empty t [] h = cc
has-is_empty t (x ∷ xs) h = refl

module _ {D : Type 0} (i : IDispatcher D) where
  open i use {registered}

  abbrev pub targets_of : Macro → Heap D → List ℕ
  targets_of m h = map h.dispatcher_of m.activators

  abbrev pub generic_for : Macro → Heap D → ℕ
  generic_for m h = h.generic_of m.context

  reapply_dispatch_lem :
      (this : ℕ) (m : Macro) (h : Heap D)
      → m.context ≢ 0
      → this ≢ 0
      → NotNull m.triggers
      → (h' : Heap D) × (reapply_dispatch i this m h ≡ ok h')
        × (h'.dispatcher_of ≡ h.dispatcher_of)
        × (h'.generic_of ≡ h.generic_of)
        × (h'.actor_of ≡ h.actor_of)
        × ((d r : ℕ)
            → registered r (h'.net d) ≡ (
                (registered r (h.net d)
                  && not (removed this m.triggers (targets_of m h) (generic_for m h) d r))
                || (enabled m && added this m.triggers (targets_of m h) (generic_for m h) d r)))
  unfolding reapply_dispatch
  reapply_dispatch_lem this m h ctx n ns =
      let (h1, e1, same_to, same_generic, same_actor, r1) =
        remove_dispatch_lem i this m h ctx n ns in
      let (h2, e2, kept_to, kept_generic, kept_actor, r2) = add_dispatch_lem i this m h1 ctx in
      elim (Bool-cases (enabled m)) [
        | inl on ↦ (
          h2,
          rw (e1, on) e2,
          kept_to ∙ same_to,
          kept_generic ∙ same_generic,
          kept_actor ∙ same_actor,
          λ d r. rw (on, r2 d r, r1 d r, same_to, same_generic),
        )
        | inr off ↦ (
          h1,
          rw (e1, off),
          same_to,
          same_generic,
          same_actor,
          λ d r. rw (off, r1 d r) (ground arith),
        )
      ]

  -- Whether `r` is registered with `d` after the macro has been applied to registrations.
  abbrev pub applied : ℕ → Macro → Heap D → ℕ → ℕ → Bool → Bool
  applied this m h d r old =
      (old && not (removed this m.triggers (targets_of m h) (generic_for m h) d r))
      || (enabled m && added this m.triggers (targets_of m h) (generic_for m h) d r)

  -- Where the context, the macro and its triggers are not null, `_applyDispatch` succeeds; with
  -- its flag off it leaves every registration alone, and with it on it takes out, in every
  -- dispatcher, what the macro's set-up names and, if the macro is enabled, registers the
  -- triggers (or the macro, if it has none) with the dispatchers of the activators (or with the
  -- generic one, if there is none).
  pub apply_dispatch_lem :
      (this : ℕ) (m : Macro) (h : Heap D)
      → m.context ≢ 0
      → this ≢ 0
      → NotNull m.triggers
      → (h' : Heap D) × (apply_dispatch i this m h ≡ ok h')
        × (h'.dispatcher_of ≡ h.dispatcher_of)
        × (h'.generic_of ≡ h.generic_of)
        × (h'.actor_of ≡ h.actor_of)
        × ((d r : ℕ)
            → registered r (h'.net d) ≡ (
                if m.apply_dispatch_flag
                then applied this m h d r (registered r (h.net d))
                else registered r (h.net d)))
  unfolding apply_dispatch
  apply_dispatch_lem this m h ctx n ns = elim (Bool-cases m.apply_dispatch_flag) [
    | inl on ↦
        let (h', e, to, generic, actor, reg) = reapply_dispatch_lem this m h ctx n ns in
        (h', simp on e, to, generic, actor, λ d r. simp on (reg d r))
    | inr off ↦ (h, simp off, refl, refl, refl, λ d r. simp off)
  ]

  -- Where the context, the macro and its triggers are not null, a second `_applyDispatch`
  -- succeeds and changes no registration.
  pub apply_dispatch_idem :
      (this : ℕ) (m : Macro) (h : Heap D)
      → m.context ≢ 0
      → this ≢ 0
      → NotNull m.triggers
      → (h1 : Heap D) × (h2 : Heap D) × (apply_dispatch i this m h ≡ ok h1)
        × (apply_dispatch i this m h1 ≡ ok h2)
        × ((d r : ℕ) → registered r (h2.net d) ≡ registered r (h1.net d))
  apply_dispatch_idem this m h ctx n ns =
      let (h1, e1, to, generic, actor, r1) = apply_dispatch_lem this m h ctx n ns in
      let (h2, e2, to2, generic2, actor2, r2) = apply_dispatch_lem this m h1 ctx n ns in
      let same_g : h1.generic_of m.context ≡ h.generic_of m.context =
        ap (λ f. f m.context) generic in
      (
        h1,
        h2,
        e1,
        e2,
        λ d r.
            r2 d r
            ∙ ap
                (λ old.
                  if m.apply_dispatch_flag
                  then (old
                      && not (removed this m.triggers (targets_of m h1) (generic_for m h1) d r))
                    || (enabled m && added this m.triggers (targets_of m h1) (generic_for m h1) d r)
                  else old)
                (r1 d r)
            ∙ rw (to, same_g)
                (again m.apply_dispatch_flag (registered r (h.net d))
                  (removed this m.triggers (targets_of m h) (generic_for m h) d r)
                  (added this m.triggers (targets_of m h) (generic_for m h) d r) (enabled m))
            ∙ sym (r1 d r),
      )
    where
      again :
          (flag old out new en : Bool)
          → (if flag
              then ((if flag then (old && not out) || (en && new) else old) && not out)
                || (en && new)
              else (if flag then (old && not out) || (en && new) else old))
            ≡ (if flag then (old && not out) || (en && new) else old)
      again flag old out new en = ground arith

  -- An enabled macro with its dispatch flag on and no activators, where the context, its generic
  -- dispatcher, the macro and its triggers are not null and the macro is no trigger, registers
  -- its triggers with the generic dispatcher, and `_removeDispatch` leaves each of them there
  -- while it takes the macro out.
  pub trigger_leak :
      (this t : ℕ) (m : Macro) (h : Heap D)
      → m.context ≢ 0
      → this ≢ 0
      → NotNull m.triggers
      → m.activators ≡ []
      → m.apply_dispatch_flag ≡ true
      → enabled m ≡ true
      → has t m.triggers ≡ true
      → this ≢ t
      → h.generic_of m.context ≢ 0
      → (h1 : Heap D) × (h2 : Heap D) × (apply_dispatch i this m h ≡ ok h1)
        × (remove_dispatch i this m h1 ≡ ok h2)
        × (registered t (h2.net (h.generic_of m.context)) ≡ true)
        × (registered this (h2.net (h.generic_of m.context)) ≡ false)
  trigger_leak this t m h ctx n ns alone flag on mine other generic_here =
      let (h1, e1, to, generic, actor, r1) = apply_dispatch_lem this m h ctx n ns in
      let (h2, e2, to2, generic2, actor2, r2) = remove_dispatch_lem i this m h1 ctx n ns in
      let g = h.generic_of m.context in
      let same_g : h1.generic_of m.context ≡ g = ap (λ f. f m.context) generic in
      let kept : registered t (h2.net g) ≡ true =
        simp (r2 g t, r1 g t, flag, alone, mine, has-is_empty t m.triggers mine, same_g, on)
          (ground arith) in
      let gone : registered this (h2.net g) ≡ false =
        simp (r2 g this, alone, same_g) (ground arith) in
      (h1, h2, e1, e2, kept, gone)

  -- Without a context `_removeDispatch` dereferences the null pointer, and so does
  -- `_applyDispatch` unless its flag is off.
  pub no_context_crash :
      (this : ℕ) (m : Macro) (h : Heap D)
      → m.context ≡ 0
      → (remove_dispatch i this m h ≡ crash)
        × (apply_dispatch i this m h ≡ (if m.apply_dispatch_flag then crash else ok h))
  unfolding remove_dispatch reapply_dispatch apply_dispatch
  no_context_crash this m h e = (ground arith, ground arith)
