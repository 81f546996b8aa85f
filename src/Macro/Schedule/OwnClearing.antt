-- ===== src/Macro/Schedule/OwnClearing.antt =====
-- `clearThreads` on a thread of the macro itself, by a signal that the thread sends.
use libmacro.Prelude.{
  ℕ, suc, ◌+◌, ◌*◌, ◌^◌, ◌<◌, ◌≤◌, ◌≡◌, ◌≢◌, ap, sym, subst, refl, List, ◌∷◌, ◌++◌, Bool, true,
  false, arith,
}
use libmacro.Types.{Interrupt, interrupt_all}
use libmacro.Macro.State.{Macro, Globals}
use libmacro.Macro.Threads.{dequeue}
use libmacro.Macro.Run.{at_least}
use libmacro.Macro.Schedule.{Place, System, Turn, Reach, initial, macro_set, delivering}
use libmacro.Macro.Schedule.Places.{total, total_one, is_consuming, inside_at}
use libmacro.Macro.Schedule.Ending.{weight}
use libmacro.Macro.Schedule.Clearing.{
  waiting_once, first_phase, Phase, looking, emptying, awaiting, Clears, Together, no_step,
  by_thread, by_caller,
}
use libmacro.Macro.Schedule.Cleared.{IsClearing, Together-IsClearing}
use libmacro.Macro.Schedule.ClearingEnd.{begun-IsClearing, left-first_phase}

abbrev pub IsAmong : Place → List Place → Type 0
IsAmong p ps = (before : List Place) × (after : List Place) × (ps ≡ before ++ p ∷ after)

-- Steps of the call and moves of the other threads, while the thread that calls stays at its place
pub data OwnCall (v : Interrupt) (sticky : Bool) (s : System) (place : Place)
    : ℕ → System → Phase → Type 0 where
  begins : OwnCall v sticky s place 0 (macro_set (dequeue v s.shared.macro) s) (first_phase sticky)
  others_move :
      {n : ℕ} {t u : System} {q : Phase}
      → OwnCall v sticky s place n t q
      → Turn t u
      → IsAmong place u.places
      → OwnCall v sticky s place (suc n) u q
  call_goes_on :
      {n : ℕ} {t u : System} {q r : Phase}
      → OwnCall v sticky s place n t q
      → Clears v t q u r
      → OwnCall v sticky s place (suc n) u r

-- The call has not come past its first wait.
abbrev pub is_early : Phase → Bool
is_early looking = true
is_early emptying = true
is_early awaiting = true
is_early waiting_once = true
is_early _ = false

OwnCall-Together :
    {v : Interrupt} {sticky : Bool} {s : System} {place : Place} {n : ℕ} {t : System} {q : Phase}
    → OwnCall v sticky s place n t q
    → Together v (macro_set (dequeue v s.shared.macro) s) (first_phase sticky) n t q
OwnCall-Together begins = no_step
OwnCall-Together (others_move c h a) = by_thread (OwnCall-Together c) h
OwnCall-Together (call_goes_on c h) = by_caller (OwnCall-Together c) h

Clears-early :
    {v : Interrupt} {t u : System} {q r : Phase}
    → Clears v t q u r
    → t.shared.macro.thread_count ≢ 0
    → is_early q ≡ true
    → (is_early r ≡ true) × (u.places ≡ t.places)
Clears-early (Clears.sees_none h) n e = absurd (n h)
Clears-early (Clears.sees_some h) n e = (refl, refl)
Clears-early Clears.empties n e = (refl, refl)
Clears-early (Clears.wakes h) n e = absurd (n h)
Clears-early (Clears.goes_round h) n e = (refl, refl)
Clears-early (Clears.leaves_loop h) n e = absurd (n h)
Clears-early (Clears.sees_none_again h) n e = absurd (n h)
Clears-early (Clears.sees_late h) n e = absurd (cc)
Clears-early (Clears.wakes_once h) n e = absurd (n h)
Clears-early (Clears.joins all) n e = absurd (cc)

-- A thread that is sending a signal is counted.
counted_inside :
    {base : Macro} {q : Phase} {t : System} (a : ℕ) (ss : List ℕ)
    → IsClearing base q t
    → IsAmong (delivering a ss) t.places
    → t.shared.macro.thread_count ≢ 0
counted_inside {t = t} a ss v (before, after, e) zero_now = absurd (
    omega (
      arith,
      v.counts.counted,
      zero_now,
      ap (total inside_at) e,
      total_one inside_at before after (delivering a ss),
    ))

first_early : (sticky : Bool) → is_early (first_phase sticky) ≡ true
first_early true = refl
first_early false = refl

OwnCall-early :
    (v : Interrupt) (sticky : Bool) (s : System) (a : ℕ) (ss : List ℕ) {n : ℕ} {t : System}
    {q : Phase}
    → at_least v interrupt_all ≡ true
    → IsClearing
        (dequeue v s.shared.macro)
        (first_phase sticky)
        (macro_set (dequeue v s.shared.macro) s)
    → IsAmong (delivering a ss) s.places
    → OwnCall v sticky s (delivering a ss) n t q
    → (is_early q ≡ true) × IsAmong (delivering a ss) t.places
OwnCall-early v sticky s a ss stops first there begins = (first_early sticky, there)
OwnCall-early v sticky s a ss stops first there (others_move c h stays) =
    ((OwnCall-early v sticky s a ss stops first there c).0, stays)
OwnCall-early v sticky s a ss stops first there (call_goes_on c h) =
    let (early, among) = OwnCall-early v sticky s a ss stops first there c in
    let (i, _) = Together-IsClearing v s.shared.macro stops (OwnCall-Together c) first in
    let (still, same) = Clears-early h (counted_inside a ss i among) early in
    (still, subst (IsAmong (delivering a ss)) (sym same) among)

-- In a system reached from a macro without threads, under a global limit below 2 ^ 32 with no more
-- slots taken than there are, in which no thread is about to end an INTERRUPT and a thread is
-- sending a signal, `clearThreads` with INTERRUPT_ALL or DISABLE, sticky or not, on that thread,
-- while it stays at its place, never comes past its first wait, and it and the other threads
-- together make at most four times as many steps as the places and signals weigh, and five.
pub OwnCall-waits :
    (m : Macro) (g : Globals) (s t : System) (v : Interrupt) (sticky : Bool) (n : ℕ) (q : Phase)
    (a : ℕ) (ss : List ℕ)
    → m.thread_count ≡ 0
    → g.active ≤ g.thread_limit
    → g.thread_limit < 2 ^ 32
    → Reach (initial m g) s
    → at_least v interrupt_all ≡ true
    → total is_consuming s.places ≡ 0
    → IsAmong (delivering a ss) s.places
    → OwnCall v sticky s (delivering a ss) n t q
    → (n ≤ 4 * weight s + 5) × (is_early q ≡ true)
unfolding dequeue
OwnCall-waits m g s t v sticky n q a ss idle few narrow r stops none_there there call =
    let first = begun-IsClearing m g s v sticky idle few narrow r stops none_there in
    let (_, few_steps) = Together-IsClearing v s.shared.macro stops (OwnCall-Together call) first in
    (
      omega (arith, few_steps, left-first_phase sticky (macro_set (dequeue v s.shared.macro) s)),
      (OwnCall-early v sticky s a ss stops first there call).0,
    )
