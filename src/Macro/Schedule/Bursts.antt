-- ===== src/Macro/Schedule/Bursts.antt =====
-- Many threads that stand at the same place, and what one interrupt does to them, because the test
-- of `consumeInterrupt` and its call of `setInterruptor` are apart.
use libmacro.Prelude.{
  ℕ, suc, zero, ◌+◌, ◌≤◌, ◌≡◌, ◌∙◌, ap, refl, List, [], ◌∷◌, ◌++◌, true, arith, inl, min,
}
use mathlib.Core.List.{append-nil}
use libmacro.Types.{continue, interrupt}
use libmacro.Macro.State.{Macro, Globals}
use libmacro.Macro.Threads.Limits.{IsLimited}
use libmacro.Macro.Threads.Starting.{start_spawns}
use libmacro.Macro.Control.{interrupt_locked}
use libmacro.Macro.Schedule.{
  Shared, System, Place, Move, turn, Call, Reach, here, called, initial, after_start, macro_set,
  interrupted_now, fresh, entered, consuming, completing,
}
use libmacro.Macro.Schedule.Ending.{Turns, no_turn, one_more}
use libmacro.Macro.Schedule.Settling.{Turns-Reach}

abbrev pub copies : ℕ → Place → List Place
copies zero p = []
copies (suc n) p = p ∷ copies n p

copies-last : (n : ℕ) (p : Place) → copies n p ++ (p ∷ []) ≡ p ∷ copies n p
copies-last zero p = refl
copies-last (suc n) p = ap (λ ps. p ∷ ps) (copies-last n p)

pub copies-middle :
    (n : ℕ) (p : Place) (ps : List Place) → copies n p ++ p ∷ ps ≡ p ∷ (copies n p ++ ps)
copies-middle zero p ps = refl
copies-middle (suc n) p ps = ap (λ qs. p ∷ qs) (copies-middle n p ps)

-- After some starts, and before any thread has moved
pub record IsFresh (m : Macro) (g : Globals) (n : ℕ) (s : System) : Type 0 where
  pub limited : IsLimited s.shared.globals.thread_limit s.shared.macro
  pub going : s.shared.macro.interruptor ≡ continue
  pub none_counted : s.shared.macro.thread_count ≡ 0
  pub same_limit : s.shared.globals.thread_limit ≡ g.thread_limit
  pub slots : s.shared.globals.active ≡ g.active + n
  pub all_fresh : s.places ≡ copies n fresh
  pub same_sticky : s.shared.macro.sticky ≡ m.sticky
  pub same_signals : s.shared.macro.signals ≡ m.signals
  pub same_max : s.shared.macro.thread_max ≡ m.thread_max
  pub runs : s.shared.macro.queued ≡ min (m.queued + n) m.thread_max

one_start :
    (m : Macro) (g : Globals) (n : ℕ) (s : System)
    → IsFresh m g n s
    → g.active + suc n ≤ g.thread_limit
    → IsFresh m g (suc n) (after_start true s)
one_start m g n s v room =
    let positive = v.limited.some_thread in
    let e =
      start_spawns s.shared.globals s.shared.macro v.limited
        (inl v.going, omega (arith, positive, v.none_counted))
        (omega (arith, v.slots, v.same_limit)) in
    rw e (record {
      limited = record {
        some_thread = v.limited.some_thread;
        few_threads = v.limited.few_threads;
        few_runs = omega arith;
      };
      going = v.going;
      none_counted = v.none_counted;
      same_limit = v.same_limit;
      slots = omega (arith, v.slots);
      all_fresh = ap (λ ps. ps ++ (fresh ∷ [])) v.all_fresh ∙ copies-last n fresh;
      same_sticky = v.same_sticky;
      same_signals = v.same_signals;
      same_max = v.same_max;
      runs = ground (arith, v.runs, v.same_max);
    })

pub none_started :
    (m : Macro) (g : Globals)
    → IsLimited g.thread_limit m
    → m.interruptor ≡ continue
    → m.thread_count ≡ 0
    → IsFresh m g 0 (initial m g)
none_started m g limited going idle = record {
  limited = limited;
  going = going;
  none_counted = idle;
  same_limit = refl;
  slots = omega arith;
  all_fresh = refl;
  same_sticky = refl;
  same_signals = refl;
  same_max = refl;
  runs = ground (arith, limited.few_runs);
}

pub many_starts :
    (m : Macro) (g : Globals) (n : ℕ)
    → IsFresh m g 0 (initial m g)
    → g.active + n ≤ g.thread_limit
    → (s : System) × Reach (initial m g) s × IsFresh m g n s
many_starts m g zero v room = (initial m g, here, v)
many_starts m g (suc n) v room =
    let (s, r, ready) = many_starts m g n v (omega arith) in
    (after_start true s, called r (Call.starts true), one_start m g n s ready room)

-- If a thread at one place can move to another whenever the shared state has a property, and keeps
-- it, all of them can, one after the other.
module _ (P : Shared → Type 0) (p q : Place)
    (step : (s : Shared) → P s → (t : Shared) × Move s p t q × P t) where
  turn_from :
      (n before k : ℕ) (o s : System)
      → Turns o k s
      → P s.shared
      → s.places ≡ copies before q ++ copies n p
      → (j : ℕ) × (t : System) × Turns o j t × P t.shared × (t.places ≡ copies (before + n) q)
  turn_from zero before k o s turns good e =
      (k, s, turns, good, e ∙ append-nil (copies before q) ∙ ap (λ b. copies b q) (omega arith))
  turn_from (suc n) before k o s turns good e =
      let (shared, m, good') = step s.shared good in
      let s' : System = record s { shared = shared; places = copies before q ++ q ∷ copies n p } in
      let moved = turn (copies before q) (copies n p) e m in
      let (j, t, turns', kept, e') =
        turn_from n (suc before) (suc k) o s' (one_more turns moved) good'
          (copies-middle before q (copies n p)) in
      (j, t, turns', kept, e' ∙ ap (λ b. copies b q) (omega arith))

  pub turn_each :
      (n k : ℕ) (o s : System)
      → Turns o k s
      → P s.shared
      → s.places ≡ copies n p
      → (j : ℕ) × (t : System) × Turns o j t × P t.shared × (t.places ≡ copies n q)
  turn_each n k o s turns good e =
      let (j, t, turns', kept, e') = turn_from n 0 k o s turns good e in
      (j, t, turns', kept, e' ∙ ap (λ b. copies b q) (omega arith))

abbrev GoingOn : Shared → Type 0
GoingOn s = s.macro.interruptor ≡ continue

-- From a macro within its limits, in CONTINUE and without threads, and for any number of free
-- global slots, a system in CONTINUE is reached in which so many threads have just been counted,
-- and from which, once the macro has been set to INTERRUPT, the threads' own moves alone bring all
-- of them to `onRunComplete`.
pub interrupt_burst :
    (m : Macro) (g : Globals) (n : ℕ)
    → IsLimited g.thread_limit m
    → m.interruptor ≡ continue
    → m.thread_count ≡ 0
    → g.active + n ≤ g.thread_limit
    → (s : System) × Reach (initial m g) s
      × (s.places ≡ copies n entered)
      × (s.shared.macro.interruptor ≡ continue)
      × ((j : ℕ) × (t : System) × Turns
            (macro_set (interrupt_locked interrupt s.shared.macro).1 s)
            j
            t
          × (t.places ≡ copies n completing))
unfolding interrupt_locked
interrupt_burst m g n limited going idle room =
    let (s0, r0, v) = many_starts m g n (none_started m g limited going idle) room in
    let (i, s, enters, calm, inside) =
      turn_each GoingOn fresh entered (λ x h. (_, Move.enter, h)) n 0 s0 s0 no_turn v.going
        v.all_fresh in
    let pressed : System = macro_set (interrupt_locked interrupt s.shared.macro).1 s in
    let (j, t, sees, hit, seen) =
      turn_each (λ x. interrupted_now x.macro ≡ true) entered consuming
        (λ x h. (x, Move.preamble_interrupted h, h)) n 0 pressed pressed no_turn refl inside in
    let (k, u, ends, done, over) =
      turn_each (λ x. Unit) consuming completing (λ x h. (_, Move.consume, tt)) n j pressed t sees
        tt seen in
    (s, Turns-Reach r0 enters, inside, calm, (k, u, ends, over))
