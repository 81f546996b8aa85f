-- ===== src/Macro/Schedule/Ending.antt =====
-- The threads of a macro that has been stopped come to an end, in whatever order they move.
use libmacro.Prelude.{
  ℕ, suc, ◌+◌, ◌<◌, ◌≤◌, ◌≡◌, ◌≢◌, ◌⊎◌, inl, inr, Bool-cases, ◌==◌, ◌||◌, ◌∙◌, ap, refl, List, [],
  ◌∷◌, ◌++◌, true, false, arith, length,
}
use libmacro.Types.{interrupt, interrupt_all}
use libmacro.Macro.Dispatching.{is_empty}
use libmacro.Macro.State.{Macro}
use libmacro.Macro.Threads.{dec_queued, limit_max_threads}
use libmacro.Macro.Run.{at_least}
use libmacro.Macro.Schedule.{
  Place, Shared, System, Move, Turn, turn, stopped_now, interrupted_now, paused_now, dispensable,
  lingering, taking, delivering, fresh, entered, ready, head, consuming, testing, deciding, pausing,
  waiting, completing, leaving, gone, sending,
}
use libmacro.Macro.Schedule.Places.{
  total, total_one, rank, is_consuming, is_delivering, total-split,
}

-- The macro is disabled or all of it is interrupted, and no thread is about to let it continue.
pub record IsStopped (s : System) : Type 0 where
  pub stopped : stopped_now s.shared.macro ≡ true
  pub none_consuming : total is_consuming s.places ≡ 0

-- What the moves of a stopped macro's threads leave alone
pub record SameControl (m n : Macro) : Type 0 where
  pub same_interruptor : n.interruptor ≡ m.interruptor
  pub same_signals : n.signals ≡ m.signals

abbrev unchanged : {m : Macro} → SameControl m m
unchanged = record { same_interruptor = refl; same_signals = refl }

not_interrupted : (m : Macro) → stopped_now m ≡ true → interrupted_now m ≡ false
not_interrupted m h = ground arith

not_paused : (m : Macro) → stopped_now m ≡ true → paused_now m ≡ false
not_paused m h = ground arith

sends_nothing :
    (m : Macro) (a : ℕ) → stopped_now m ≡ true → (at_least m.interruptor interrupt || a == 0) ≡ true
sends_nothing m a h = ground arith

pub dec_queued-SameControl : (limit : ℕ) (m : Macro) → SameControl m (dec_queued limit m)
unfolding dec_queued limit_max_threads
dec_queued-SameControl limit m = record {
  same_interruptor = ground arith;
  same_signals = ground arith;
}

abbrev signal_count : Shared → ℕ
signal_count s = length s.macro.signals

-- A move in a stopped macro keeps it so, and lowers the rank of the thread.
Move-rank :
    {here there : Place} {s t : Shared}
    → Move s here t there
    → stopped_now s.macro ≡ true
    → is_consuming here ≡ 0
    → SameControl s.macro t.macro
      × (is_consuming there ≡ 0)
      × (rank (signal_count s) there < rank (signal_count s) here)
      × (length t.sent + is_delivering there ≡ length s.sent + is_delivering here)
Move-rank Move.enter d l =
    (record { same_interruptor = refl; same_signals = refl }, refl, omega arith, refl)
Move-rank {s = s} (Move.preamble_interrupted h) d l = absurd (cc (h, not_interrupted s.macro d))
Move-rank (Move.preamble_free h) d l = (unchanged, refl, omega arith, refl)
Move-rank (Move.no_signals h) d l = (unchanged, refl, omega arith, refl)
Move-rank (Move.some_signals h) d l = (unchanged, refl, omega arith, refl)
Move-rank {s = s} (Move.pauses h) d l = absurd (cc (h, not_paused s.macro d))
Move-rank (Move.goes_on h) d l = (unchanged, refl, omega arith, refl)
Move-rank (Move.resumes h) d l = (unchanged, refl, omega arith, refl)
Move-rank {s = s} (Move.loop_interrupted h) d l = absurd (cc (h, not_interrupted s.macro d))
Move-rank (Move.loop_free h) d l = (unchanged, refl, omega arith, refl)
Move-rank Move.consume d l = absurd (omega arith)
Move-rank (Move.stops h) d l = (unchanged, refl, omega arith, refl)
Move-rank (Move.decides h) d l = absurd (cc)
Move-rank (Move.is_idle h) d l = (unchanged, refl, omega arith, refl)
Move-rank (Move.is_busy h) d l = (unchanged, refl, omega arith, refl)
Move-rank (Move.leaves h) d l = (unchanged, refl, omega arith, refl)
Move-rank (Move.stays h) d l = (unchanged, refl, omega arith, refl)
Move-rank {s = s} Move.takes d l =
    (dec_queued-SameControl s.globals.thread_limit s.macro, refl, omega arith, refl)
Move-rank (Move.breaks h) d l = (unchanged, refl, omega arith, refl)
Move-rank (Move.skips h n) d l = absurd (cc)
Move-rank {s = s} (Move.passes {a} h) d l = absurd (cc (h, sends_nothing s.macro a d))
Move-rank Move.sends d l = (unchanged, refl, omega arith, omega arith)
Move-rank Move.throws d l = (unchanged, refl, omega arith, omega arith)
Move-rank Move.all_sent d l = (unchanged, refl, omega arith, refl)
Move-rank Move.complete d l =
    (record { same_interruptor = refl; same_signals = refl }, refl, omega arith, refl)
Move-rank Move.release d l = (unchanged, refl, omega arith, refl)

-- Moves of the macro's threads, and how many
pub data Turns (s : System) : ℕ → System → Type 0 where
  no_turn : Turns s 0 s
  one_more : {n : ℕ} {t u : System} → Turns s n t → Turn t u → Turns s (suc n) u

-- The signals that have been sent, and those that threads are about to send
abbrev pub sendings : System → ℕ
sendings s = length s.shared.sent + total is_delivering s.places

-- The moves that the threads of a stopped macro have left at most
abbrev pub weight : System → ℕ
weight s = total (rank (signal_count s.shared)) s.places

pub Turn-weight :
    {s t : System}
    → Turn s t
    → IsStopped s
    → IsStopped t × (weight t < weight s) × (t.others ≡ s.others) × (sendings t ≡ sendings s)
Turn-weight {s} (turn {here} {there} {shared} before after e m) v =
    let consumed = total_one is_consuming before after here in
    let all = ap (total is_consuming) e in
    let one = Move-rank m v.stopped (omega (arith, consumed, all, v.none_consuming)) in
    let same = one.0 in
    let ranks = rank (signal_count s.shared) in
    (
      record {
        stopped = ap (λ v. at_least v interrupt_all) same.same_interruptor ∙ v.stopped;
        none_consuming = omega (
          arith,
          total_one is_consuming before after there,
          one.1,
          consumed,
          all,
          v.none_consuming,
        );
      },
      omega (
        arith,
        ap (λ k. total (rank k) (before ++ there ∷ after)) (ap length same.same_signals),
        total_one ranks before after there,
        total_one ranks before after here,
        ap (total ranks) e,
        one.2,
      ),
      refl,
      omega (
        arith,
        one.3,
        total_one is_delivering before after there,
        total_one is_delivering before after here,
        ap (total is_delivering) e,
      ),
    )

pub Turns-weight :
    {s t : System} {n : ℕ}
    → Turns s n t
    → IsStopped s
    → IsStopped t × (n + weight t ≤ weight s) × (t.others ≡ s.others) × (sendings t ≡ sendings s)
Turns-weight no_turn v = (v, omega arith, refl, refl)
Turns-weight (one_more r h) v =
    let (v', less, same, quiet) = Turns-weight r v in
    let (v2, less2, same2, quiet2) = Turn-weight h v' in
    (v2, omega (arith, less, less2), same2 ∙ same, quiet2 ∙ quiet)

-- A thread of a stopped macro that has moves left can make one.
step_on :
    (s : Shared) (p : Place)
    → stopped_now s.macro ≡ true
    → is_consuming p ≡ 0
    → rank (signal_count s) p ≢ 0
    → (t : Shared) × (q : Place) × Move s p t q
step_on s fresh d l n = (_, _, Move.enter)
step_on s entered d l n = (_, _, Move.preamble_free (not_interrupted s.macro d))
step_on s ready d l n = elim (Bool-cases (is_empty s.macro.signals)) [
  | inl none_there ↦ (_, _, Move.no_signals none_there)
  | inr some_there ↦ (_, _, Move.some_signals some_there)
]
step_on s head d l n = (_, _, Move.loop_free (not_interrupted s.macro d))
step_on s consuming d l n = absurd (omega arith)
step_on s testing d l n = (_, _, Move.stops d)
step_on s deciding d l n = elim (Bool-cases (s.macro.queued == 0)) [
  | inr busy ↦ (_, _, Move.is_busy (ground arith))
  | inl empty ↦ (_, _, Move.is_idle (ground arith))
]
step_on s lingering d l n = elim (Bool-cases (dispensable s.macro)) [
  | inl over ↦ (_, _, Move.leaves over)
  | inr stay ↦ (_, _, Move.stays stay)
]
step_on s taking d l n = (_, _, Move.takes)
step_on s (delivering a ss) d l n = (_, _, Move.sends)
step_on s (sending []) d l n = (_, _, Move.all_sent)
step_on s (sending (a ∷ ss)) d l n = (_, _, Move.breaks d)
step_on s pausing d l n = (_, _, Move.goes_on (not_paused s.macro d))
step_on s waiting d l n = (_, _, Move.resumes (not_paused s.macro d))
step_on s completing d l n = (_, _, Move.complete)
step_on s leaving d l n = (_, _, Move.release)
step_on s gone d l n = elim (n refl) [ ]

pub progress : (s : System) → IsStopped s → (weight s ≡ 0) ⊎ ((t : System) × Turn s t)
progress s v = elim (total-split (rank (signal_count s.shared)) s.places) [
  | inl ended ↦ inl ended
  | inr (before, p, after, e, n) ↦
      let consumed = total_one is_consuming before after p in
      let all = ap (total is_consuming) e in
      let (shared, q, m) =
        step_on s.shared p v.stopped (omega (arith, consumed, all, v.none_consuming)) n in
      inr (_, turn before after e m)
]

pub weightless :
    (signals : ℕ) (w : Place → ℕ) (ps : List Place)
    → ((p : Place) → rank signals p ≡ 0 → w p ≡ 0)
    → total (rank signals) ps ≡ 0
    → total w ps ≡ 0
weightless signals w [] h z = refl
weightless signals w (p ∷ ps) h z =
    omega (arith, h p (omega (arith, z)), weightless signals w ps h (omega (arith, z)))
