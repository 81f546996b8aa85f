-- ===== src/Macro/Control/Setters.antt =====
-- The setters of a macro: what each changes, in the macro and in what it can reach.
use libmacro.Prelude.{
  ℕ, ◌≡◌, ◌≢◌, ap, ◌∙◌, List, [], ◌∷◌, Bool, not, ◌==◌, ◌||◌, ◌&&◌, ltb, if◌then◌else◌, arith, has,
}
use libmacro.Error.{ok, throw, einval}
use libmacro.Dispatcher.Interface.{IDispatcher}
use libmacro.Macro.State.{Macro, Globals}
use libmacro.Macro.Dispatching.{Heap, update}
use libmacro.Macro.Dispatching.Removal.{NotNull, removed, remove_dispatch_lem}
use libmacro.Macro.Dispatching.Registration.{targets_of, generic_for, applied, apply_dispatch_lem}
use libmacro.Macro.Threads.{limit_max_threads}
use libmacro.Macro.Threads.Limits.{IsLimited}
use libmacro.Macro.Control.{set_thread_max, set_activators, set_triggers, fixup_trigger_actors}

-- On a macro within its limits, `setThreadMax` throws EINVAL for 0 and for more threads than the
-- global limit, and else sets the limit, dropping the queued runs if there are more than that.
pub set_thread_max_lem :
    (val : ℕ) (g : Globals) (m : Macro)
    → IsLimited g.thread_limit m
    → set_thread_max val g m ≡ (
        if val == 0 || ltb g.thread_limit val
        then throw einval
        else ok (record m { thread_max = val; queued = if ltb val m.queued then 0 else m.queued }))
unfolding set_thread_max limit_max_threads
set_thread_max_lem val g m v = ground arith

pub actors_lem :
    (this : ℕ) (ts : List ℕ) (actor_of : ℕ → ℕ) (t : ℕ)
    → fixup_trigger_actors this ts actor_of t
      ≡ (if not (t == 0) && has t ts then this else actor_of t)
unfolding fixup_trigger_actors
actors_lem this [] actor_of t = ground arith
actors_lem this (u ∷ ts) actor_of t =
    ground (arith, actors_lem this ts actor_of t, actors_lem this ts (update actor_of u this) t)

module _ {D : Type 0} (i : IDispatcher D) where
  open i use {registered}

  -- The registrations after a change of the set-up from the one of `m` to the one of `m'`.
  abbrev pub changed : ℕ → Macro → Macro → Heap D → ℕ → ℕ → Bool
  changed this m m' h d r =
      let left =
        registered r (h.net d)
        && not (removed this m.triggers (targets_of i m h) (generic_for i m h) d r) in
      if m'.apply_dispatch_flag then applied i this m' h d r left else left

  -- Where the context, the macro and its triggers, old and new, are not null, `setTriggers`
  -- succeeds, leaves the dispatchers of signals, makes the macro the actor of exactly the new
  -- triggers, takes out the registrations of the old set-up and makes those of the new.
  pub set_triggers_lem :
      (this : ℕ) (array : List ℕ) (m : Macro) (h : Heap D)
      → m.context ≢ 0
      → this ≢ 0
      → NotNull m.triggers
      → NotNull array
      → let m' = record m { triggers = array } in
        (h' : Heap D) × (set_triggers i this array m h ≡ ok (m', h'))
        × (h'.dispatcher_of ≡ h.dispatcher_of)
        × ((t : ℕ) → h'.actor_of t ≡ (if not (t == 0) && has t array then this else h.actor_of t))
        × ((d r : ℕ) → registered r (h'.net d) ≡ changed this m m' h d r)
  unfolding set_triggers
  set_triggers_lem this array m h ctx n ns ns' =
      let (h1, e1, to1, generic1, actor1, r1) = remove_dispatch_lem i this m h ctx n ns in
      let same_g : h1.generic_of m.context ≡ h.generic_of m.context =
        ap (λ f. f m.context) generic1 in
      let m' = record m { triggers = array } in
      let h1' = record h1 { actor_of = fixup_trigger_actors this array h1.actor_of } in
      let (h2, e2, to2, generic2, actor2, r2) = apply_dispatch_lem i this m' h1' ctx n ns' in
      (
        h2,
        rw (e1, e2),
        to2 ∙ to1,
        λ t.
            ap (λ f. f t) actor2
            ∙ actors_lem this array h1.actor_of t
            ∙ ap (λ f. if not (t == 0) && has t array then this else f t) actor1,
        λ d r. r2 d r ∙ rw (r1 d r, to1, same_g),
      )

  -- Where the context, the macro and its triggers are not null, `setActivators` succeeds, leaves
  -- the actors alone, takes out the registrations of the old set-up and makes those of the new.
  pub set_activators_lem :
      (this : ℕ) (array : List ℕ) (m : Macro) (h : Heap D)
      → m.context ≢ 0
      → this ≢ 0
      → NotNull m.triggers
      → let m' = record m { activators = array } in
        (h' : Heap D) × (set_activators i this array m h ≡ ok (m', h'))
        × (h'.actor_of ≡ h.actor_of)
        × ((d r : ℕ) → registered r (h'.net d) ≡ changed this m m' h d r)
  unfolding set_activators
  set_activators_lem this array m h ctx n ns =
      let (h1, e1, to1, generic1, actor1, r1) = remove_dispatch_lem i this m h ctx n ns in
      let same_g : h1.generic_of m.context ≡ h.generic_of m.context =
        ap (λ f. f m.context) generic1 in
      let m' = record m { activators = array } in
      let (h2, e2, to2, generic2, actor2, r2) = apply_dispatch_lem i this m' h1 ctx n ns in
      (h2, rw (e1, e2), actor2 ∙ actor1, λ d r. r2 d r ∙ rw (r1 d r, to1, same_g))
