-- ===== src/Macro/Schedule/ResettingKept.antt =====
-- What stays true while the reset thread and the threads of the macro take their steps, and that each
-- of these brings the end nearer.
use libmacro.Prelude.{
  ℕ, ◌+◌, ◌*◌, ◌<◌, ◌≤◌, ◌≡◌, ◌≢◌, ◌∙◌, ◌⊎◌, inl, inr, ap, sym, refl, true, false, if◌then◌else◌,
  arith,
}
use libmacro.Types.{Interrupt, continue, interrupt_all}
use libmacro.Macro.State.{Macro, is_disable}
use libmacro.Macro.Threads.{dequeue}
use libmacro.Macro.Control.{interrupt_locked}
use libmacro.Macro.Pool
use libmacro.Macro.Pool.Counts.{IsCounted, Step-IsCounted}
use libmacro.Macro.Schedule.{System, Turn, macro_set}
use libmacro.Macro.Schedule.Refinement.{pool_of}
use libmacro.Macro.Schedule.Ending.{weight, Turn-weight}
use libmacro.Macro.Schedule.Clearing.{Phase, looking, waiting_once, joining, finished, Clears}
use libmacro.Macro.Schedule.Cleared.{
  left, left_most, IsClearing, moved_on, Turn-IsClearing, Clears-IsClearing, dequeue-IsClearing,
}
use libmacro.Macro.Schedule.Resetting.{
  ResetPhase, noting, stopping, asking, clearing, within, judging, comparing, setting, over, Resets,
  ResetSteps, no_step, by_thread, by_reset,
}

-- Where `clearThreads` stands, if the call is in it
abbrev pub inner : ResetPhase → Phase
inner (within prev q) = q
inner _ = looking

-- The steps that the call has left, where no thread moves
abbrev pub steps_left : ResetPhase → System → ℕ
steps_left noting t = 11
steps_left (stopping prev) t = 10
steps_left (asking prev) t = 9
steps_left (clearing prev) t = 8
steps_left (within prev q) t = left q t + 4
steps_left (judging prev) t = 3
steps_left comparing t = 2
steps_left setting t = 1
steps_left over t = 0

abbrev pub reset_cost : ResetPhase → System → ℕ
reset_cost q t = 4 * weight t + steps_left q t

-- The phases of `clearThreads` without a sticky interrupt
abbrev pub IsPlain : Phase → Type 0
IsPlain waiting_once = Unit
IsPlain joining = Unit
IsPlain finished = Unit
IsPlain _ = ⊥

-- The interruptor that was read, or is to be read, is the given one, and the call has not returned.
abbrev pub IsUnderWay : Interrupt → ResetPhase → Type 0
IsUnderWay v noting = v ≡ interrupt_all
IsUnderWay v (within prev q) = (prev ≡ v) × IsPlain q
IsUnderWay v (stopping prev) = prev ≡ v
IsUnderWay v (asking prev) = prev ≡ v
IsUnderWay v (clearing prev) = prev ≡ v
IsUnderWay v (judging prev) = prev ≡ v
IsUnderWay v comparing = is_disable v ≡ false
IsUnderWay v setting = is_disable v ≡ false
IsUnderWay v over = ⊥

pub record IsResetting (v : Interrupt) (base : Macro) (q : ResetPhase) (t : System) : Type 0 where
  pub stopped : IsClearing base (inner q) t
  pub under_way : IsUnderWay v q

-- The macro continues, or is in INTERRUPT_ALL if it was disabled, with an empty queue.
abbrev pub IsReset : Interrupt → Macro → System → Type 0
IsReset v base t = t.shared.macro ≡ record base {
  interruptor = if is_disable v then interrupt_all else continue;
  thread_count = t.shared.macro.thread_count;
  threads = t.shared.macro.threads;
}

abbrev pub Holds : Interrupt → Macro → ResetPhase → System → Type 0
Holds v base q t = IsResetting v base q t ⊎ ((q ≡ over) × IsReset v base t × IsCounted (pool_of t))

Clears-IsPlain :
    {v : Interrupt} {s t : System} {q r : Phase} → Clears v s q t r → IsPlain q → IsPlain r
Clears-IsPlain (Clears.sees_none h) p = absurd p
Clears-IsPlain (Clears.sees_some h) p = absurd p
Clears-IsPlain Clears.empties p = absurd p
Clears-IsPlain (Clears.wakes h) p = absurd p
Clears-IsPlain (Clears.goes_round h) p = absurd p
Clears-IsPlain (Clears.leaves_loop h) p = absurd p
Clears-IsPlain (Clears.sees_none_again h) p = absurd p
Clears-IsPlain (Clears.sees_late h) p = absurd p
Clears-IsPlain (Clears.wakes_once h) p = tt
Clears-IsPlain (Clears.joins all) p = tt

-- The interruptor of a macro that is being reset
pub still_all :
    (m : Macro) {q : Phase} {t : System}
    → IsClearing (dequeue interrupt_all m) q t
    → t.shared.macro.interruptor ≡ interrupt_all
unfolding dequeue
still_all m i = ap (λ n. n.interruptor) i.same

sets_continue :
    (v : Interrupt) {base : Macro} {q : Phase} {t : System}
    → is_disable v ≡ false
    → IsClearing base q t
    → IsReset v base (macro_set (interrupt_locked continue t.shared.macro).1 t)
unfolding interrupt_locked
sets_continue v on i = rw on (ap {A = Macro} (λ n. record n { interruptor = continue }) i.same)

stays_all :
    (v : Interrupt) (m : Macro) {q : Phase} {t : System}
    → is_disable v ≡ true
    → IsClearing (dequeue interrupt_all m) q t
    → IsReset v (dequeue interrupt_all m) t
unfolding dequeue
stays_all v m off i = rw off i.same

pub Resets-IsResetting :
    (v : Interrupt) (m : Macro) {q r : ResetPhase} {t u : System}
    → Resets t q u r
    → IsResetting v (dequeue interrupt_all m) q t
    → Holds v (dequeue interrupt_all m) r u × (reset_cost r u < reset_cost q t)
unfolding dequeue interrupt_locked
Resets-IsResetting v m Resets.notes i = (
  inl (record {
    stopped = moved_on i.stopped tt;
    under_way = still_all m i.stopped ∙ sym i.under_way;
  }),
  omega arith,
)
Resets-IsResetting v m Resets.stops i = (
  inl (record {
    stopped = dequeue-IsClearing interrupt_all m refl looking tt i.stopped;
    under_way = i.under_way;
  }),
  omega arith,
)
Resets-IsResetting v m (Resets.asks_none h) i =
    (inl (record { stopped = i.stopped; under_way = i.under_way }), omega arith)
Resets-IsResetting v m (Resets.asks_some h) i =
    (inl (record { stopped = i.stopped; under_way = i.under_way }), omega arith)
Resets-IsResetting v m Resets.clears i = (
  inl (record {
    stopped = dequeue-IsClearing interrupt_all m refl waiting_once tt i.stopped;
    under_way = (i.under_way, tt);
  }),
  omega arith,
)
Resets-IsResetting v m (Resets.goes_on c) i =
    let (stopped, less) = Clears-IsClearing interrupt_all m refl c i.stopped in
    (
      inl (record {
        stopped = stopped;
        under_way = (i.under_way.0, Clears-IsPlain c i.under_way.1);
      }),
      omega (arith, less),
    )
Resets-IsResetting v m Resets.cleared i =
    (inl (record { stopped = moved_on i.stopped tt; under_way = i.under_way.0 }), omega arith)
Resets-IsResetting v m (Resets.stays_off h) i =
    let off = sym (ap is_disable i.under_way) ∙ h in
    (inr (refl, stays_all v m off i.stopped, (i.stopped).counts), omega arith)
Resets-IsResetting v m (Resets.continues h) i = (
  inl (record { stopped = i.stopped; under_way = sym (ap is_disable i.under_way) ∙ h }),
  omega arith,
)
Resets-IsResetting v m (Resets.unchanged h) i = let e = still_all m i.stopped in absurd (cc (h, e))
Resets-IsResetting v m (Resets.changes h) i =
    (inl (record { stopped = i.stopped; under_way = i.under_way }), omega arith)
Resets-IsResetting v m Resets.sets i = (
  inr (
    refl,
    sets_continue v i.under_way i.stopped,
    Step-IsCounted (Pool.Step.interrupts continue) (i.stopped).counts,
  ),
  omega arith,
)

steps_most : (q : ResetPhase) (t u : System) → steps_left q u ≤ steps_left q t + 3
steps_most noting t u = omega arith
steps_most (stopping prev) t u = omega arith
steps_most (asking prev) t u = omega arith
steps_most (clearing prev) t u = omega arith
steps_most (within prev q) t u = omega (arith, left_most q t u)
steps_most (judging prev) t u = omega arith
steps_most comparing t u = omega arith
steps_most setting t u = omega arith
steps_most over t u = omega arith

pub Turn-IsResetting :
    {v : Interrupt} {base : Macro} (q : ResetPhase) {t u : System}
    → Turn t u
    → IsResetting v base q t
    → IsResetting v base q u × (reset_cost q u < reset_cost q t)
Turn-IsResetting q {t} {u} h i =
    let (stopped, _) = Turn-IsClearing (inner q) h i.stopped in
    let (_, less, _, _) = Turn-weight h (i.stopped).stopped in
    (record { stopped = stopped; under_way = i.under_way }, omega (arith, less, steps_most q t u))

-- The call has no step once it has returned.
pub returned : {q r : ResetPhase} {t u : System} → Resets t q u r → q ≢ over
returned Resets.notes e = cc
returned Resets.stops e = cc
returned (Resets.asks_none h) e = cc
returned (Resets.asks_some h) e = cc
returned Resets.clears e = cc
returned (Resets.goes_on c) e = cc
returned Resets.cleared e = cc
returned (Resets.stays_off h) e = cc
returned (Resets.continues h) e = cc
returned (Resets.unchanged h) e = cc
returned (Resets.changes h) e = cc
returned Resets.sets e = cc

pub ResetSteps-Holds :
    (v : Interrupt) (m : Macro) {p : ResetPhase} {s : System} {q : ResetPhase} {t : System} {n : ℕ}
    → ResetSteps s p n t q
    → IsResetting v (dequeue interrupt_all m) p s
    → Holds v (dequeue interrupt_all m) q t × (n + reset_cost q t ≤ reset_cost p s)
ResetSteps-Holds v m no_step i = (inl i, omega arith)
ResetSteps-Holds v m (by_thread {q = q} r going h) i =
    let (holds, few) = ResetSteps-Holds v m r i in
    elim holds [
      | inl j ↦ let (k, less) = Turn-IsResetting q h j in (inl k, omega (arith, few, less))
      | inr (ended, _, _) ↦ absurd (going ended)
    ]
ResetSteps-Holds v m (by_reset {q = q} r h) i =
    let (holds, few) = ResetSteps-Holds v m r i in
    elim holds [
      | inl j ↦ let (k, less) = Resets-IsResetting v m h j in (k, omega (arith, few, less))
      | inr (ended, _, _) ↦ absurd (returned h ended)
    ]
