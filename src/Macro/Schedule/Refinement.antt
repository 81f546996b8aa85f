-- ===== src/Macro/Schedule/Refinement.antt =====
-- The threads with their places are an implementation of the pool of threads that `Pool` counts.
use libmacro.Prelude.{
  ℕ, ◌+◌, ◌≡◌, ◌⊎◌, inl, inr, ◌∙◌, ap, sym, subst, refl, List, [], ◌∷◌, ◌++◌, Bool, true, false,
  if◌then◌else◌, arith,
}
use libmacro.Types.{continue}
use libmacro.Macro.State.{Macro, Globals}
use libmacro.Macro.Pool.{Pool, at_rest}
use libmacro.Macro.Pool
use libmacro.Macro.Threads.{start}
use libmacro.Macro.Schedule.{
  Place, Shared, System, Move, Turn, turn, Call, Reach, here, turned, called, initial, after_start,
  fresh, entered, leaving,
}
use libmacro.Macro.Run.{up, down}
use libmacro.Macro.Pool.{with_threads}
use libmacro.Macro.Schedule.{with_macro}
use libmacro.Macro.Schedule.Places.{
  total, rest, total_one, total-append, made_at, inside_at, leaving_at,
}

-- The pool that a system stands for: where the threads stand is forgotten.
abbrev pub pool_of : System → Pool
pool_of s = record {
  macro = s.shared.macro;
  globals = s.shared.globals;
  made = total made_at s.places;
  inside = total inside_at s.places;
  leaving = total leaving_at s.places;
  others = s.others;
}

-- A step of the pool, or none
abbrev Follows : Pool → Pool → Type 0
Follows p q = (p ≡ q) ⊎ Pool.Step p q

-- The pool with one thread at a given place, and the others as they are
abbrev pool_with : Shared → (before after : List Place) → ℕ → Place → Pool
pool_with shared before after others p = record {
  macro = shared.macro;
  globals = shared.globals;
  made = made_at p + rest made_at before after;
  inside = inside_at p + rest inside_at before after;
  leaving = leaving_at p + rest leaving_at before after;
  others = others;
}

pool_of-turn :
    (s : Shared) (before after : List Place) (others : ℕ) (p : Place)
    → pool_of (record { shared = s; places = before ++ p ∷ after; others = others })
      ≡ pool_with s before after others p
pool_of-turn s before after others p = rw (
  total_one made_at before after p,
  total_one inside_at before after p,
  total_one leaving_at before after p,
)

Move-Follows :
    {here there : Place} {s t : Shared} (before after : List Place) (others : ℕ)
    → Move s here t there
    → Follows (pool_with s before after others here) (pool_with t before after others there)
Move-Follows {s = s} before after others Move.enter =
    let q =
      pool_with (with_macro (with_threads (up s.macro.thread_count) s.macro) s) before after others
        entered in
    inr (
      subst (Pool.Step _) (ap (λ k. record q { inside = k }) (omega arith))
        (Pool.Step.enters {n = q.made} (omega arith)))
Move-Follows before after others (Move.preamble_interrupted h) = inl refl
Move-Follows before after others (Move.preamble_free h) = inl refl
Move-Follows before after others (Move.no_signals h) = inl refl
Move-Follows before after others (Move.some_signals h) = inl refl
Move-Follows before after others (Move.pauses h) = inl refl
Move-Follows before after others (Move.goes_on h) = inl refl
Move-Follows before after others (Move.resumes h) = inl refl
Move-Follows before after others (Move.loop_interrupted h) = inl refl
Move-Follows before after others (Move.loop_free h) = inl refl
Move-Follows before after others Move.consume = inr (Pool.Step.interrupts continue)
Move-Follows before after others (Move.stops h) = inl refl
Move-Follows before after others (Move.decides h) = inl refl
Move-Follows before after others (Move.is_idle h) = inl refl
Move-Follows before after others (Move.is_busy h) = inl refl
Move-Follows before after others (Move.leaves h) = inl refl
Move-Follows before after others (Move.stays h) = inl refl
Move-Follows before after others Move.takes = inr Pool.Step.takes
Move-Follows before after others (Move.breaks h) = inl refl
Move-Follows before after others (Move.skips h n) = inl refl
Move-Follows before after others (Move.passes h) = inl refl
Move-Follows before after others Move.sends = inl refl
Move-Follows before after others Move.throws = inl refl
Move-Follows before after others Move.all_sent = inl refl
Move-Follows {s = s} before after others Move.complete =
    let q =
      pool_with (with_macro (with_threads (down s.macro.thread_count) s.macro) s) before after
        others leaving in
    inr (
      subst (Pool.Step _) (ap (λ k. record q { leaving = k }) (omega arith))
        (Pool.Step.completes {n = q.inside} (omega arith)))
Move-Follows before after others Move.release =
    inr (Pool.Step.releases {n = 0 + rest leaving_at before after} (omega arith))

Follows-path : {p p' q q' : Pool} → p ≡ p' → q ≡ q' → Follows p' q' → Follows p q
Follows-path {p' = p'} {q = q} e f h =
    subst (λ x. Follows x q) (sym e) (subst (λ y. Follows p' y) (sym f) h)

pub Turn-Follows : {s t : System} → Turn s t → Follows (pool_of s) (pool_of t)
Turn-Follows {s} (turn {here} {there} {shared} before after e m) =
    Follows-path
      (ap (λ ps. pool_of (record s { places = ps })) e
        ∙ pool_of-turn s.shared before after s.others here)
      (pool_of-turn shared before after s.others there) (Move-Follows before after s.others m)

start_made :
    (b : Bool) (ps : List Place)
    → (total made_at (if b then ps ++ fresh ∷ [] else ps)
        ≡ (if b then total made_at ps + 1 else total made_at ps))
      × (total inside_at (if b then ps ++ fresh ∷ [] else ps) ≡ total inside_at ps)
      × (total leaving_at (if b then ps ++ fresh ∷ [] else ps) ≡ total leaving_at ps)
start_made false ps = (refl, refl, refl)
start_made true ps = (
  omega (arith, total-append made_at ps (fresh ∷ [])),
  omega (arith, total-append inside_at ps (fresh ∷ [])),
  omega (arith, total-append leaving_at ps (fresh ∷ [])),
)

pool_of-start : (b : Bool) (s : System) → pool_of (after_start b s) ≡ Pool.started b (pool_of s)
pool_of-start b s =
    let (made, inside, leaves) =
      start_made (start b s.shared.globals s.shared.macro).spawned s.places in
    rw (made, inside, leaves)

Call-Step : {s t : System} → Call s t → Pool.Step (pool_of s) (pool_of t)
Call-Step {s} (Call.starts b) = subst (Pool.Step _) (sym (pool_of-start b s)) (Pool.Step.starts b)
Call-Step (Call.interrupts v) = Pool.Step.interrupts v
Call-Step (Call.dequeues v) = Pool.Step.dequeues v
Call-Step (Call.sets h) = Pool.Step.sets h
Call-Step (Call.other_starts h) = Pool.Step.other_starts h
Call-Step (Call.other_releases h) = Pool.Step.other_releases (omega arith)

Reach-Follows : {o p q : Pool} → Pool.Reach o p → Follows p q → Pool.Reach o q
Reach-Follows r (inl e) = subst (Pool.Reach _) e r
Reach-Follows r (inr s) = Pool.Reach.later r s

-- Under a global limit that stands still, every system that can be reached by moves of threads,
-- each at its place in `run`, by starts, by interrupts, by what empties the queue, and by the steps
-- of the setters and of the copies, a copy where no thread is counted, is a reachable state of the
-- pool, which knows of the threads only how many are made, counted and leaving.
pub schedule_refines :
    (m : Macro) (g : Globals) (s : System)
    → Reach (initial m g) s
    → Pool.Reach (at_rest m g) (pool_of s)
schedule_refines m g s here = Pool.Reach.here
schedule_refines m g s (turned {t} r h) = Reach-Follows (schedule_refines m g t r) (Turn-Follows h)
schedule_refines m g s (called {t} r h) = Pool.Reach.later (schedule_refines m g t r) (Call-Step h)
