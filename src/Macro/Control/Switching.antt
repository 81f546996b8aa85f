-- ===== src/Macro/Control/Switching.antt =====
-- A macro that is disabled and enabled again.
use libmacro.Prelude.{
  ℕ, ◌≡◌, ◌≢◌, ◌∙◌, sym, ap, subst, refl, Bool, true, false, not, ◌||◌, ◌&&◌, if◌then◌else◌, arith,
  map,
}
use libmacro.Types.{continue, disable}
use libmacro.Error.{ok, ok_inj}
use libmacro.Dispatcher.Interface.{IDispatcher}
use libmacro.Macro.State.{Macro, enabled, is_disable}
use libmacro.Macro.Dispatching.{Heap, apply_dispatch}
use libmacro.Macro.Dispatching.Removal.{NotNull, removed}
use libmacro.Macro.Dispatching.Addition.{added}
use libmacro.Macro.Dispatching.Registration.{targets_of, generic_for, applied, apply_dispatch_lem}
use libmacro.Macro.Control.{same_interrupt, set_enabled}
use libmacro.Macro.Control.Interrupting.{set_interruptor_total}

-- What is taken out and put back is what was there.
put_back :
    (flag old out new : Bool) (x y z : Bool)
    → x ≡ (if flag then (old && not out) || (true && new) else old)
    → y ≡ (if flag then (x && not out) || (false && new) else x)
    → z ≡ (if flag then (y && not out) || (true && new) else y)
    → (y ≡ (x && not (flag && out))) × (z ≡ x)
put_back flag old out new x y z e f g = (ground arith, ground arith)

module _ {D : Type 0} (i : IDispatcher D) where
  open i use {registered}

  -- What `_applyDispatch` has done to the registrations
  abbrev Applied : ℕ → Macro → Heap D → Heap D → Type 0
  Applied this m h h' =
      (h'.dispatcher_of ≡ h.dispatcher_of)
      × (h'.generic_of ≡ h.generic_of)
      × ((d r : ℕ)
          → registered r (h'.net d) ≡ (
              if m.apply_dispatch_flag
              then applied i this m h d r (registered r (h.net d))
              else registered r (h.net d)))

  apply_dispatch-Applied :
      (this : ℕ) (m : Macro) (h h' : Heap D)
      → m.context ≢ 0
      → this ≢ 0
      → NotNull m.triggers
      → apply_dispatch i this m h ≡ ok h'
      → Applied this m h h'
  apply_dispatch-Applied this m h h' ctx n ns e =
      let (k, f, to, generic, actor, reg) = apply_dispatch_lem i this m h ctx n ns in
      subst (Applied this m h) (ok_inj (sym f ∙ e)) (to, generic, reg)

  abbrev pub out_of : ℕ → Macro → Heap D → ℕ → ℕ → Bool
  out_of this m h d r = removed this m.triggers (targets_of i m h) (generic_for i m h) d r

  abbrev into : ℕ → Macro → Heap D → ℕ → ℕ → Bool
  into this m h d r = added this m.triggers (targets_of i m h) (generic_for i m h) d r

  -- The registrations of a macro that is applied, disabled and enabled
  three_times :
      (this : ℕ) (m : Macro) (h0 h h1 h2 : Heap D)
      → m.interruptor ≡ continue
      → Applied this m h0 h
      → Applied this (record m { interruptor = disable }) h h1
      → Applied this (record m { interruptor = continue }) h1 h2
      → (d r : ℕ)
      → (registered r (h1.net d)
          ≡ (registered r (h.net d) && not (m.apply_dispatch_flag && out_of this m h d r)))
        × (registered r (h2.net d) ≡ registered r (h.net d))
  three_times this m h0 h h1 h2 going (to0, g0, r0) (to1, g1, r1) (to2, g2, r2) d r =
      let on : enabled m ≡ true = ground (arith, going) in
      let after : (ℕ → ℕ) → (ℕ → ℕ) → Bool → Bool → Bool = λ to generic en old.
        let targets = map to m.activators in
        if m.apply_dispatch_flag
        then (old && not (removed this m.triggers targets (generic m.context) d r))
          || (en && added this m.triggers targets (generic m.context) d r)
        else old in
      let first = r0 d r ∙ (λ j. after (sym to0 j) (sym g0 j) (on j) (registered r (h0.net d))) in
      let last = r2 d r ∙ (λ j. after (to1 j) (g1 j) true (registered r (h1.net d))) in
      put_back m.apply_dispatch_flag (registered r (h0.net d)) (out_of this m h d r)
        (into this m h d r) (registered r (h.net d)) (registered r (h1.net d))
        (registered r (h2.net d)) first (r1 d r) last

  -- Where the context, the macro and its triggers are not null and the macro is in CONTINUE with
  -- its dispatch applied, `setEnabled(false)` succeeds, sets DISABLE, changes nothing else of the
  -- macro and, if the dispatch flag is on, takes out what the macro's set-up names, and nothing
  -- else, in every dispatcher; `setEnabled(true)` then succeeds and gives back the macro and
  -- every registration as they were.
  pub off_and_on :
      (this : ℕ) (m : Macro) (h0 h : Heap D)
      → m.context ≢ 0
      → this ≢ 0
      → NotNull m.triggers
      → m.interruptor ≡ continue
      → apply_dispatch i this m h0 ≡ ok h
      → let off : Macro = record m { interruptor = disable } in
        (h1 : Heap D) × (h2 : Heap D) × (set_enabled i this false m h
          ≡ ok (record { macro = off; heap = h1; resets = false }))
        × (set_enabled i this true off h1 ≡ ok (record { macro = m; heap = h2; resets = false }))
        × ((d r : ℕ)
            → (registered r (h1.net d)
                ≡ (registered r (h.net d) && not (m.apply_dispatch_flag && out_of this m h d r)))
              × (registered r (h2.net d) ≡ registered r (h.net d)))
  unfolding set_enabled
  off_and_on this m h0 h ctx n ns going applied_now =
      let off : Macro = record m { interruptor = disable } in
      let on : Macro = record m { interruptor = continue } in
      let back : on ≡ m = ap (λ v. record m { interruptor = v }) (sym going) in
      let new : same_interrupt disable m.interruptor ≡ false = ground (arith, going) in
      let changes : (is_disable m.interruptor || is_disable disable) ≡ true = ground arith in
      let (h1, e1, s1) = set_interruptor_total i this disable m h ctx n ns new in
      let (h2, e2, s2) = set_interruptor_total i this continue off h1 ctx n ns refl in
      let e1' = subst (λ b. (if b then apply_dispatch i this off h else ok h) ≡ ok h1) changes e1 in
      (
        h1,
        h2,
        s1,
        s2 ∙ ap (λ x. ok (record { macro = x; heap = h2; resets = false })) back,
        three_times this m h0 h h1 h2 going
            (apply_dispatch-Applied this m h0 h ctx n ns applied_now)
            (apply_dispatch-Applied this off h h1 ctx n ns e1')
            (apply_dispatch-Applied this on h1 h2 ctx n ns e2),
      )
