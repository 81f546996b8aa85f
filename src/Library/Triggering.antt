-- ===== src/Library/Triggering.antt =====
-- From a signal to a macro: the dispatcher of an activator, a trigger, and its actor.
use libmacro.Prelude.{
  ℕ, ◌≡◌, ◌≢◌, ◌⊎◌, inl, inr, ◌∙◌, subst, refl, [], ◌∷◌, some, Bool, true, false, ◌==◌, ◌||◌, arith,
  has,
}
use libmacro.Error.{ok}
use libmacro.Word.{IsWord}
use libmacro.Types.{TriggerMode}
use libmacro.Flags.Matching.{Matches}
use libmacro.Dispatcher.{Dispatcher}
use libmacro.Dispatcher.Interface.{generic_dispatcher}
use libmacro.Dispatcher.Dispatch.{dispatch_one}
use libmacro.Dispatcher.Receivers.{IsWellFormed}
use libmacro.Trigger.{Trigger, action_receive}
use libmacro.Trigger.Laws.{action_of, action_receive_cases}
use libmacro.Macro.State.{Macro, enabled}
use libmacro.Macro.Dispatching.{Heap}
use libmacro.Macro.Dispatching.Removal.{NotNull}
use libmacro.Macro.Dispatching.Preservation.{Keeps, set_triggers_kept, generic_added, generic_taken}
use libmacro.Macro.Control.{set_triggers}
use libmacro.Macro.Control.Setters.{changed, set_triggers_lem}
use libmacro.Library.{Library, macro_set, act_macro, receive, dispatch_signal, set_macro_triggers}
use libmacro.Library.Receiving.{one_member}

-- What the macro is, and what stands around it, for the signal `a` to trigger it through `t`
pub record IsSetUp (l : Library) (this t a : ℕ) : Type 0 where
  pub context : (l.macro_of this).context ≢ 0
  pub real_this : this ≢ 0
  pub real_trigger : t ≢ 0
  pub real_old : NotNull (l.macro_of this).triggers
  pub real_dispatcher : l.heap.dispatcher_of a ≢ 0
  pub activator : (l.macro_of this).activators ≡ a ∷ []
  pub flag : (l.macro_of this).apply_dispatch_flag ≡ true
  pub is_on : enabled (l.macro_of this) ≡ true
  pub sets : (d : ℕ) → IsWellFormed (l.heap.net d)
  pub unshared :
      (r : ℕ)
      → has r (l.heap.net (l.heap.dispatcher_of a)).receivers ≡ true
      → (this == r || has r (l.macro_of this).triggers) ≡ true

-- After `setTriggers` with one trigger, the trigger is the only receiver of the dispatcher.
only_trigger :
    (l : Library) (this t a : ℕ) (h' : Heap Dispatcher)
    → IsSetUp l this t a
    → ((d r : ℕ)
        → has r (h'.net d).receivers
          ≡ changed generic_dispatcher this
              (l.macro_of this)
              (record (l.macro_of this) { triggers = t ∷ [] })
              l.heap
              d
              r)
    → (r : ℕ) → has r (h'.net (l.heap.dispatcher_of a)).receivers ≡ (t == r)
unfolding generic_dispatcher
only_trigger l this t a h' v reg r =
    let d = l.heap.dispatcher_of a in
    let e = reg d r in
    let u = v.unshared r in
    let real = v.real_dispatcher in
    let on = v.is_on in let f = v.flag in rw e (simp (v.activator, f, on) (ground arith))

-- `setTriggers` returns, makes the macro the actor of the trigger, registers as `changed` says and leaves a list in every dispatcher.
triggers_set :
    (this t : ℕ) (m : Macro) (h : Heap Dispatcher)
    → m.context ≢ 0
    → this ≢ 0
    → t ≢ 0
    → NotNull m.triggers
    → ((d : ℕ) → IsWellFormed (h.net d))
    → (h' : Heap Dispatcher) × (set_triggers generic_dispatcher this (t ∷ []) m h
        ≡ ok (record m { triggers = t ∷ [] }, h'))
      × (h'.dispatcher_of ≡ h.dispatcher_of)
      × (h'.actor_of t ≡ this)
      × ((d r : ℕ)
          → has r (h'.net d).receivers
            ≡ changed generic_dispatcher this m (record m { triggers = t ∷ [] }) h d r)
      × ((d : ℕ) → IsWellFormed (h'.net d))
unfolding generic_dispatcher
triggers_set this t m h ctx n real ns sets =
    let (h', e, to, actor, reg) =
      set_triggers_lem generic_dispatcher this (t ∷ []) m h ctx n ns (real, tt) in
    (
      h',
      e,
      to,
      actor t ∙ ground arith,
      reg,
      subst (Keeps IsWellFormed generic_dispatcher generic_added generic_taken (λ p. p.1)) e (
          set_triggers_kept IsWellFormed generic_dispatcher generic_added generic_taken this
            (t ∷ []) m h sets),
    )

-- Where the macro, its context, the trigger and the old triggers are not null, the macro is
-- enabled, its dispatch flag is on, its one activator has a dispatcher that knows nobody but the
-- macro and its old triggers, and no dispatcher has a receiver twice, `setTriggers` with one action
-- returns; a dispatch of the activator with some modifiers, all words, then starts the macro and
-- blocks as the action's flag says if the modifiers match, and otherwise changes nothing and does
-- not block.
pub trigger_starts :
    (available : Bool) (l : Library) (this t a flags mods : ℕ) (base : Trigger) (mode : TriggerMode)
    → IsSetUp l this t a
    → l.action_of t ≡ some (action_of base flags mode)
    → IsWord flags
    → IsWord mods
    → (l' : Library) × (set_macro_triggers this (t ∷ []) l ≡ ok l')
      × ((Matches mode flags mods
            × (dispatch_signal available a mods l'
                ≡ (base.blocking_flag, (act_macro available this l').1)))
          ⊎ ((¬ Matches mode flags mods) × (dispatch_signal available a mods l' ≡ (false, l'))))
unfolding set_macro_triggers dispatch_signal receive
trigger_starts available l this t a flags mods base mode v is_action wf wm =
    let m = l.macro_of this in
    let (h', e, to, actor, reg, sets) =
      triggers_set this t m l.heap v.context v.real_this v.real_trigger v.real_old v.sets in
    let l' : Library = record (macro_set this (record m { triggers = t ∷ [] }) l) { heap = h' } in
    let d = l.heap.dispatcher_of a in
    let one = one_member t (h'.net d).receivers (sets d) (only_trigger l this t a h' v reg) in
    let asks = dispatch_one (receive available) a mods (h'.net d) t l' one v.real_trigger in
    let act = act_macro available in
    let real = v.real_dispatcher in
    let goes : dispatch_signal available a mods l'
        ≡ action_receive act (action_of (record base { actor = this }) flags mode) a mods l' =
      rw to (ground (arith, asks, is_action, actor)) in
    (
      l',
      rw e refl,
      elim (action_receive_cases act (record base { actor = this }) flags mode a mods l' v.real_this
          wf wm) [
            | inl (matches, runs) ↦ inl (matches, goes ∙ runs)
            | inr (fails, stays) ↦ inr (fails, goes ∙ stays)
          ],
    )
