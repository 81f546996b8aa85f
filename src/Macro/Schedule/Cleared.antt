-- ===== src/Macro/Schedule/Cleared.antt =====
-- What stays true while `clearThreads` and the threads of the macro take their steps, and that each
-- of these brings the end nearer.
use libmacro.Prelude.{
  ℕ, ◌+◌, ◌*◌, ◌<◌, ◌≤◌, ◌≡◌, ◌∙◌, inl, inr, ap, sym, subst, refl, List, [], ◌∷◌, true, ◌==◌,
  if◌then◌else◌, arith, All, length,
}
use libmacro.Types.{Interrupt, interrupt_all}
use libmacro.Macro.State.{Macro}
use libmacro.Macro.Threads.{dequeue}
use libmacro.Macro.Run.{at_least}
use libmacro.Macro.Pool
use libmacro.Macro.Pool.Counts.{IsCounted, Step-IsCounted}
use libmacro.Macro.Schedule.{
  Place, System, Turn, turn, macro_set, gone, fresh, entered, ready, head, consuming, testing,
  deciding, lingering, taking, delivering, pausing, waiting, completing, leaving, sending,
}
use libmacro.Macro.Schedule.Places.{total, total_one, rank, is_consuming}
use libmacro.Macro.Schedule.Refinement.{pool_of, Turn-Follows}
use libmacro.Macro.Schedule.Ending.{IsStopped, Turn-weight, weight}
use libmacro.Macro.Schedule.Destruction.{Move-SameButCount}
use libmacro.Macro.Schedule.Clearing.{
  waiting_once, Phase, looking, emptying, awaiting, retesting, testing_last, joining, finished,
  undecided, IsGone, Clears, Together, no_step, by_thread, by_caller,
}

rank_zero : (k : ℕ) (p : Place) → rank k p ≡ 0 → IsGone p
rank_zero k fresh h = absurd (omega arith)
rank_zero k entered h = absurd (omega arith)
rank_zero k ready h = absurd (omega arith)
rank_zero k head h = absurd (omega arith)
rank_zero k consuming h = absurd (omega arith)
rank_zero k testing h = absurd (omega arith)
rank_zero k deciding h = absurd (omega arith)
rank_zero k lingering h = absurd (omega arith)
rank_zero k taking h = absurd (omega arith)
rank_zero k pausing h = absurd (omega arith)
rank_zero k waiting h = absurd (omega arith)
rank_zero k completing h = absurd (omega arith)
rank_zero k leaving h = absurd (omega arith)
rank_zero k gone h = refl
rank_zero k (sending ss) h = absurd (omega arith)
rank_zero k (delivering a ss) h = absurd (omega arith)

pub weightless-IsGone : (k : ℕ) (ps : List Place) → total (rank k) ps ≡ 0 → All IsGone ps
weightless-IsGone k [] h = tt
weightless-IsGone k (p ∷ ps) h =
    (rank_zero k p (omega (arith, h)), weightless-IsGone k ps (omega (arith, h)))

pub IsGone-weightless : (k : ℕ) (ps : List Place) → All IsGone ps → total (rank k) ps ≡ 0
IsGone-weightless k [] v = refl
IsGone-weightless k (p ∷ ps) (e, v) = omega (arith, ap (rank k) e, IsGone-weightless k ps v)

-- What has been left of the macro but for the count of its threads and their handles
abbrev pub SameSetUp : Macro → Macro → Type 0
SameSetUp m n = n ≡ record m { thread_count = n.thread_count; threads = n.threads }

-- What holds at the end of the call
abbrev pub At : Phase → System → Type 0
At finished t = All IsGone t.places × (t.shared.macro.threads ≡ 0)
At _ t = Unit

pub record IsClearing (base : Macro) (q : Phase) (t : System) : Type 0 where
  pub stopped : IsStopped t
  pub empty : t.shared.macro.queued ≡ 0
  pub counts : IsCounted (pool_of t)
  pub same : SameSetUp base t.shared.macro
  pub at_end : At q t

-- The steps that the call has left, where no thread moves
abbrev pub left : Phase → System → ℕ
left looking t = 5
left emptying t = 4
left awaiting t = 3
left retesting t = if t.shared.macro.thread_count == 0 then 2 else 5
left testing_last t = 2
left waiting_once t = 2
left joining t = 1
left finished t = 0
left undecided t = 0

abbrev pub cost : Phase → System → ℕ
cost q t = 4 * weight t + left q t

pub left_most : (q : Phase) (t u : System) → left q u ≤ left q t + 3
left_most looking t u = omega arith
left_most emptying t u = omega arith
left_most awaiting t u = omega arith
left_most retesting t u = ground arith
left_most testing_last t u = omega arith
left_most waiting_once t u = omega arith
left_most joining t u = omega arith
left_most finished t u = omega arith
left_most undecided t u = omega arith

Turn-IsCounted : {s t : System} → Turn s t → IsCounted (pool_of s) → IsCounted (pool_of t)
Turn-IsCounted h v = elim (Turn-Follows h) [
  | inl e ↦ subst IsCounted e v
  | inr moved ↦ Step-IsCounted moved v
]

Turn-SameButCount :
    {s t : System}
    → Turn s t
    → IsStopped s
    → s.shared.macro.queued ≡ 0
    → t.shared.macro ≡ record (s.shared.macro) { thread_count = t.shared.macro.thread_count }
Turn-SameButCount {s} (turn {here} before after e m) v q = Move-SameButCount m q (
    omega (
      arith,
      total_one is_consuming before after here,
      ap (total is_consuming) e,
      v.none_consuming,
    ))

Turn-At : (q : Phase) {t u : System} → Turn t u → IsStopped t → At q t → At q u
Turn-At looking h v a = tt
Turn-At emptying h v a = tt
Turn-At awaiting h v a = tt
Turn-At retesting h v a = tt
Turn-At testing_last h v a = tt
Turn-At waiting_once h v a = tt
Turn-At joining h v a = tt
Turn-At finished {t} h v a =
    let (_, less, _, _) = Turn-weight h v in
    absurd (omega (arith, less, IsGone-weightless (length t.shared.macro.signals) t.places (a.0)))
Turn-At undecided h v a = tt

pub Turn-IsClearing :
    {base : Macro} (q : Phase) {t u : System}
    → Turn t u
    → IsClearing base q t
    → IsClearing base q u × (cost q u < cost q t)
Turn-IsClearing {base} q {t} {u} h v =
    let (stopped, less, _, _) = Turn-weight h v.stopped in
    let moved = Turn-SameButCount h v.stopped v.empty in
    let count = u.shared.macro.thread_count in
    (
      record {
        stopped = stopped;
        empty = ap (λ m. m.queued) moved ∙ v.empty;
        counts = Turn-IsCounted h v.counts;
        same =
            moved
            ∙ ap {A = Macro} (λ m. record m { thread_count = count }) v.same
            ∙ ap (λ k. record base { thread_count = count; threads = k })
                (sym (ap (λ m. m.threads) moved));
        at_end = Turn-At q h v.stopped v.at_end;
      },
      omega (arith, less, left_most q t u),
    )

-- The call goes on and leaves the macro and its threads alone.
abbrev pub moved_on :
    {base : Macro} {q r : Phase} {t : System} → IsClearing base q t → At r t → IsClearing base r t
moved_on v a = record {
  stopped = v.stopped;
  empty = v.empty;
  counts = v.counts;
  same = v.same;
  at_end = a;
}

-- A `dequeue` leaves the macro stopped with an empty queue.
pub dequeue-IsClearing :
    (v : Interrupt) (m : Macro) {q : Phase} {t : System}
    → at_least v interrupt_all ≡ true
    → (r : Phase) → At r (macro_set (dequeue v t.shared.macro) t)
    → IsClearing (dequeue v m) q t
    → IsClearing (dequeue v m) r (macro_set (dequeue v t.shared.macro) t)
unfolding dequeue
dequeue-IsClearing v m stops r a i = record {
  stopped = record { stopped = stops; none_consuming = (i.stopped).none_consuming };
  empty = refl;
  counts = Step-IsCounted (Pool.Step.dequeues v) i.counts;
  same = ap (dequeue v) i.same;
  at_end = a;
}

pub Clears-IsClearing :
    (v : Interrupt) (m : Macro) {q r : Phase} {t u : System}
    → at_least v interrupt_all ≡ true
    → Clears v t q u r
    → IsClearing (dequeue v m) q t
    → IsClearing (dequeue v m) r u × (cost r u < cost q t)
unfolding dequeue
Clears-IsClearing v m stops (Clears.sees_none h) i = (moved_on i tt, omega arith)
Clears-IsClearing v m stops (Clears.sees_some h) i = (moved_on i tt, omega arith)
Clears-IsClearing v m stops Clears.empties i =
    (dequeue-IsClearing v m stops awaiting tt i, omega arith)
Clears-IsClearing v m stops (Clears.wakes h) i = (moved_on i tt, ground arith)
Clears-IsClearing v m stops (Clears.goes_round h) i = (moved_on i tt, ground arith)
Clears-IsClearing v m stops (Clears.leaves_loop h) i = (moved_on i tt, ground arith)
Clears-IsClearing v m stops (Clears.sees_none_again h) i = (moved_on i tt, omega arith)
Clears-IsClearing v m stops (Clears.sees_late h) i = (moved_on i tt, omega arith)
Clears-IsClearing v m stops (Clears.wakes_once h) i = (moved_on i tt, omega arith)
Clears-IsClearing v m stops (Clears.joins all) i = (
  record {
    stopped = record { stopped = (i.stopped).stopped; none_consuming = (i.stopped).none_consuming };
    empty = i.empty;
    counts = record {
      counted = (i.counts).counted;
      slots = (i.counts).slots;
      within = (i.counts).within;
      narrow = (i.counts).narrow;
    };
    same = ap {A = Macro} (λ x. record x { threads = 0 }) i.same;
    at_end = (all, refl);
  },
  omega arith,
)

pub Together-IsClearing :
    (v : Interrupt) (m : Macro) {p : Phase} {s : System} {q : Phase} {t : System} {n : ℕ}
    → at_least v interrupt_all ≡ true
    → Together v s p n t q
    → IsClearing (dequeue v m) p s
    → IsClearing (dequeue v m) q t × (n + cost q t ≤ cost p s)
Together-IsClearing v m stops no_step i = (i, omega arith)
Together-IsClearing v m stops (by_thread {q = q} r h) i =
    let (i', few) = Together-IsClearing v m stops r i in
    let (j, less) = Turn-IsClearing q h i' in (j, omega (arith, few, less))
Together-IsClearing v m stops (by_caller r h) i =
    let (i', few) = Together-IsClearing v m stops r i in
    let (j, less) = Clears-IsClearing v m stops h i' in (j, omega (arith, few, less))
