-- ===== src/Macro/Copying/Assignment.antt =====
-- The assignment of one macro to another, of a macro to itself, and the copy constructor.
use libmacro.Prelude.{
  ℕ, suc, ◌≡◌, ◌≢◌, refl, ap, ◌∙◌, false, not, ◌==◌, ◌&&◌, if◌then◌else◌, arith, has, Bool-cases,
  inl, inr, ==_refl, ==_iff, sym, [],
}
use libmacro.Types.{disable}
use libmacro.Error.{ok}
use libmacro.Dispatcher.Interface.{IDispatcher}
use libmacro.Macro.State.{Macro, Globals}
use libmacro.Macro.Dispatching.{Heap}
use libmacro.Macro.Dispatching.Removal.{NotNull, removed}
use libmacro.Macro.Dispatching.Registration.{targets_of, generic_for, applied, apply_dispatch_lem}
use libmacro.Macro.Threads.{limit_max_threads}
use libmacro.Macro.Control.{fixup_trigger_actors}
use libmacro.Macro.Control.Setters.{changed, actors_lem}
use libmacro.Macro.Control.Interrupting.{Settles}
use libmacro.Macro.State.{new_macro, enabled}
use libmacro.Macro.Control.Clearing.{cleared, disable_everything_lem}
use libmacro.Macro.Copying.{take_over, copy, copy_at, copy_interface, copy_macro}

-- What `copy` takes from the other macro: all but the counts of threads and runs, and the
-- handles, which the clearing has left at 0.
abbrev pub copied : Macro → Macro
copied other = record other { queued = 0; thread_count = 0; threads = 0 }

module _ {D : Type 0} (i : IDispatcher D) where
  open i use {registered}

  -- If the threads settle, and the macro, both contexts and all triggers are not null, the
  -- assignment of another macro returns with the other's set-up within the global limit, no
  -- thread and an empty queue, makes the macro the actor of the new triggers, and replaces the
  -- registrations of the old set-up by those of the new.
  pub copy_lem :
      (wait : Macro → Macro) (rounds this : ℕ) (other m : Macro) (g : Globals) (h : Heap D)
      → Settles wait
      → m.context ≢ 0
      → other.context ≢ 0
      → this ≢ 0
      → NotNull m.triggers
      → NotNull other.triggers
      → let m' = limit_max_threads g.thread_limit (copied other) in
        (h' : Heap D) × (copy wait i (suc rounds) this other g m h ≡ ok (m', h'))
        × ((t : ℕ)
            → h'.actor_of t ≡ (if not (t == 0) && has t other.triggers then this else h.actor_of t))
        × ((d r : ℕ) → registered r (h'.net d) ≡ changed i this m (copied other) h d r)
  unfolding copy take_over limit_max_threads
  copy_lem wait rounds this other m g h settles ctx ctx' n ns ns' =
      let (h1, e1, to1, generic1, actor1, r1) =
        disable_everything_lem i wait rounds this m h settles ctx n ns in
      let same_g : h1.generic_of other.context ≡ h.generic_of other.context =
        ap (λ f. f other.context) generic1 in
      let m' : Macro = limit_max_threads g.thread_limit (copied other) in
      let h1' = record h1 { actor_of = fixup_trigger_actors this other.triggers h1.actor_of } in
      let (h2, e2, to2, generic2, actor2, r2) = apply_dispatch_lem i this m' h1' ctx' n ns' in
      (
        h2,
        rw (e1, e2),
        λ t.
            ap (λ f. f t) actor2
            ∙ actors_lem this other.triggers h1.actor_of t
            ∙ ap (λ f. if not (t == 0) && has t other.triggers then this else f t) actor1,
        λ d r. r2 d r ∙ rw (r1 d r, to1, same_g),
      )

  -- If the threads settle, and the macro, its context and its triggers are not null, `copy`
  -- through the interface leaves a macro that is copied to itself alone, while the assignment of
  -- a macro to itself leaves it disabled and takes out the registrations of its set-up.
  pub self_assignment :
      (wait : Macro → Macro) (rounds this : ℕ) (macro_of : ℕ → Macro) (g : Globals) (h : Heap D)
      → Settles wait
      → (macro_of this).context ≢ 0
      → this ≢ 0
      → NotNull (macro_of this).triggers
      → (copy_interface wait i (suc rounds) this this macro_of g h ≡ ok (macro_of this, h))
        × ((m' : Macro) × (h' : Heap D) × (copy_at wait i (suc rounds) this this macro_of g h
              ≡ ok (m', h'))
            × (enabled m' ≡ false)
            × ((d r : ℕ)
                → registered r (h'.net d) ≡ (
                    registered r (h.net d)
                    && not (
                        removed this
                          (macro_of this).triggers
                          (targets_of i (macro_of this) h)
                          (generic_for i (macro_of this) h)
                          d
                          r))))
  unfolding copy_interface copy_at take_over limit_max_threads
  self_assignment wait rounds this macro_of g h settles ctx n ns =
      let m = macro_of this in
      let (h1, e1, to1, generic1, actor1, r1) =
        disable_everything_lem i wait rounds this m h settles ctx n ns in
      let same_g : h1.generic_of m.context ≡ h.generic_of m.context =
        ap (λ f. f m.context) generic1 in
      let m' : Macro = limit_max_threads g.thread_limit (cleared disable m) in
      let h1' = record h1 { actor_of = fixup_trigger_actors this m.triggers h1.actor_of } in
      let (h2, e2, to2, generic2, actor2, r2) = apply_dispatch_lem i this m' h1' ctx n ns in
      (
        simp (==_refl this),
        (
          m',
          h2,
          simp (==_refl this) (rw (e1, e2)),
          refl,
          λ d r. r2 d r ∙ rw (r1 d r, to1, same_g) (ground arith),
        ),
      )

  -- If the threads settle, a new macro that no dispatcher knows yet, made as a copy of a macro,
  -- where the context, the new macro and the triggers are not null, has the other's set-up within
  -- the global limit, is the actor of the triggers, and adds the registrations of that set-up.
  pub copy_macro_lem :
      (wait : Macro → Macro) (rounds this : ℕ) (other : Macro) (g : Globals) (h : Heap D)
      → Settles wait
      → other.context ≢ 0
      → this ≢ 0
      → NotNull other.triggers
      → ((d : ℕ) → registered this (h.net d) ≡ false)
      → let m' = limit_max_threads g.thread_limit (copied other) in
        (h' : Heap D) × (copy_macro wait i (suc rounds) this other g h ≡ ok (m', h'))
        × ((t : ℕ)
            → h'.actor_of t ≡ (if not (t == 0) && has t other.triggers then this else h.actor_of t))
        × ((d r : ℕ)
            → registered r (h'.net d) ≡ (
                if other.apply_dispatch_flag
                then applied i this (copied other) h d r (registered r (h.net d))
                else registered r (h.net d)))
  unfolding copy_macro
  copy_macro_lem wait rounds this other g h settles ctx n ns unknown =
      let (h', e, actor, reg) =
        copy_lem wait rounds this other (new_macro other.context) g h settles ctx ctx n tt ns in
      (h', e, actor, λ d r. reg d r ∙ rw (untouched d r) refl)
    where
      untouched :
          (d r : ℕ)
          → (registered r (h.net d) && not (removed this [] [] (h.generic_of other.context) d r))
            ≡ registered r (h.net d)
      untouched d r = elim (Bool-cases (this == r)) [
        | inl same ↦
            let known : registered r (h.net d) ≡ false =
              ap (λ q. registered q (h.net d)) (sym ((==_iff this r).0 same)) ∙ unknown d in
            ground arith
        | inr other_one ↦ ground arith
      ]
