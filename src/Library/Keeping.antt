-- ===== src/Library/Keeping.antt =====
-- What a dispatch leaves of the library, whatever receivers the dispatcher knows: the walk over them
-- starts macros, and changes nothing that the walk looks at.
use libmacro.Prelude.{
  ℕ, max, ◌≤◌, ◌≡◌, ◌∙◌, sym, inl, inr, refl, Bool, ◌==◌, arith, Bool-cases, Option-cases, ==_iff,
  subst,
}
use libmacro.Dispatcher.{Dispatcher, dispatch}
use libmacro.Dispatcher.Dispatch.{dispatch_related}
use libmacro.Trigger.{action_receive}
use libmacro.Flags.{trigger_mode_match}
use libmacro.Macro.State.{Macro}
use libmacro.Macro.Threads.{act}
use libmacro.Macro.Threads.Limits.{IsLimited}
use libmacro.Macro.Control.Limits.{start-IsLimited}
use libmacro.Macro.Dispatching.{update}
use libmacro.Library.Starting.{
  IsStartedFrom, start-IsStartedFrom, IsStartedFrom-refl, IsStartedFrom-trans, start_globals,
}
use libmacro.Library.{Library, act_macro, receive, dispatch_signal}

-- What a dispatch may change of the library
pub record IsDispatchedFrom (l k : Library) : Type 0 where
  pub same_heap : k.heap ≡ l.heap
  pub same_actions : k.action_of ≡ l.action_of
  pub same_limit : k.globals.thread_limit ≡ l.globals.thread_limit
  pub more_active : l.globals.active ≤ k.globals.active
  pub slots : k.globals.active ≤ max l.globals.active l.globals.thread_limit
  pub macros : (b : ℕ) → IsStartedFrom (l.macro_of b) (k.macro_of b)

-- All macros are within their limits.
abbrev pub IsAllLimited : Library → Type 0
IsAllLimited l = (b : ℕ) → IsLimited l.globals.thread_limit (l.macro_of b)

pub IsDispatchedFrom-refl : (l : Library) → IsDispatchedFrom l l
IsDispatchedFrom-refl l = record {
  same_heap = refl;
  same_actions = refl;
  same_limit = refl;
  more_active = omega arith;
  slots = omega arith;
  macros = λ b. IsStartedFrom-refl (l.macro_of b);
}

pub IsDispatchedFrom-trans :
    {k l n : Library} → IsDispatchedFrom k l → IsDispatchedFrom l n → IsDispatchedFrom k n
IsDispatchedFrom-trans v w = record {
  same_heap = w.same_heap ∙ v.same_heap;
  same_actions = w.same_actions ∙ v.same_actions;
  same_limit = w.same_limit ∙ v.same_limit;
  more_active = omega (arith, v.more_active, w.more_active);
  slots = omega (arith, v.slots, w.slots, v.same_limit);
  macros = λ b. IsStartedFrom-trans (v.macros b) (w.macros b);
}

-- A change of one macro is a change of all.
each_macro :
    (R : Macro → Macro → Type 0) (b : ℕ) (n : Macro) (l : Library)
    → ((m : Macro) → R m m)
    → R (l.macro_of b) n
    → (c : ℕ) → R (l.macro_of c) (update l.macro_of b n c)
each_macro R b n l same one c = elim (Bool-cases (b == c)) [
  | inl this_one ↦ let e = (==_iff b c).0 this_one in rw (this_one, sym e) one
  | inr another ↦ rw another (same (l.macro_of c))
]

act_macro-IsDispatchedFrom :
    (available : Bool) (b : ℕ) (l : Library) → IsDispatchedFrom l (act_macro available b l).1
unfolding act_macro act
act_macro-IsDispatchedFrom available b l =
    let (same, more, slots) = start_globals available l.globals (l.macro_of b) in
    record {
      same_heap = refl;
      same_actions = refl;
      same_limit = same;
      more_active = more;
      slots = slots;
      macros =
          each_macro IsStartedFrom b _ l IsStartedFrom-refl
            (start-IsStartedFrom available l.globals (l.macro_of b));
    }

act_macro-IsAllLimited :
    (available : Bool) (b : ℕ) (l : Library)
    → IsAllLimited l
    → IsAllLimited (act_macro available b l).1
unfolding act_macro act
act_macro-IsAllLimited available b l v c =
    let limit = l.globals.thread_limit in
    let (same, one, _) = start-IsLimited available l.globals (l.macro_of b) refl (v b) in
    subst (λ k. IsLimited k ((act_macro available b l).1.macro_of c)) (sym same)
      (each_macro (λ m n. IsLimited limit m → IsLimited limit n) b _ l (λ m h. h) (λ h. one) c
        (v c))

-- A relation that no macro leaves when it acts, and that nothing leaves, no receiver leaves.
receive_related :
    (R : Library → Library → Type 0) (available : Bool)
    → ((l : Library) → R l l)
    → ((b : ℕ) (l : Library) → R l (act_macro available b l).1)
    → (r signal mods : ℕ) (l : Library) → R l (receive available r signal mods l).1
unfolding receive action_receive
receive_related R available stays acts r signal mods l = elim (Option-cases (l.action_of r)) [
  | inl is_macro ↦ rw (receive, is_macro) (acts r l)
  | inr (a, is_action) ↦
      let actor = l.heap.actor_of r in
      rw (receive, is_action)
        (elim (Bool-cases (trigger_mode_match a.trigger_mode a.modifiers mods)) [
          | inr fails ↦ rw fails (stays l)
          | inl matches ↦ rw matches (elim (Bool-cases (actor == 0)) [
            | inl null ↦ rw null (stays l)
            | inr object ↦ rw object (acts actor l)
          ])
        ])
]

pub dispatch-IsDispatchedFrom :
    (available : Bool) (d : Dispatcher) (signal mods : ℕ) (l : Library)
    → IsDispatchedFrom l (dispatch (receive available) d signal mods l).1
dispatch-IsDispatchedFrom available d signal mods l =
    dispatch_related (receive available) signal mods IsDispatchedFrom IsDispatchedFrom-refl
      (λ j k n v w. IsDispatchedFrom-trans v w)
      (λ r k.
        receive_related IsDispatchedFrom available IsDispatchedFrom-refl
          (act_macro-IsDispatchedFrom available) r signal mods k)
      d l

dispatch-IsAllLimited :
    (available : Bool) (d : Dispatcher) (signal mods : ℕ) (l : Library)
    → IsAllLimited l
    → IsAllLimited (dispatch (receive available) d signal mods l).1
dispatch-IsAllLimited available d signal mods l =
    let keeps : Library → Library → Type 0 = λ j k. IsAllLimited j → IsAllLimited k in
    dispatch_related (receive available) signal mods keeps (λ j v. v) (λ j k n f g v. g (f v))
      (λ r k.
        receive_related keeps available (λ j v. v) (act_macro-IsAllLimited available) r signal mods
          k)
      d l

-- From a library whose macros are all within their limits a dispatch of any signal with any
-- modifiers, whatever receivers its dispatcher has, leaves all macros within them; it leaves the
-- dispatchers, the actors, the actions and the global limit, gives no global slot back and takes
-- none beyond the limit, and leaves every macro its set-up and its count of threads, a macro in
-- INTERRUPT_ALL or DISABLE as it was, and any other its interruptor, where an INTERRUPT may be
-- over.
pub dispatch_keeps :
    (available : Bool) (signal mods : ℕ) (l : Library)
    → IsAllLimited l
    → let k = (dispatch_signal available signal mods l).1 in IsDispatchedFrom l k × IsAllLimited k
unfolding dispatch_signal
dispatch_keeps available signal mods l v =
    let d = l.heap.dispatcher_of signal in
    elim (Bool-cases (d == 0)) [
      | inl null ↦ rw null (IsDispatchedFrom-refl l, v)
      | inr object ↦ rw object (
        dispatch-IsDispatchedFrom available (l.heap.net d) signal mods l,
        dispatch-IsAllLimited available (l.heap.net d) signal mods l v,
      )
    ]
