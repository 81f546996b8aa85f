-- ===== src/Macro/Pool/Starts.antt =====
-- Starts that come before the threads they make have entered `runPreamble`.
use libmacro.Prelude.{ℕ, suc, zero, ◌+◌, ◌^◌, ◌<◌, ◌≤◌, ◌≡◌, ◌∙◌, refl, arith, inl, true}
use libmacro.Types.{continue}
use libmacro.Macro.State.{Macro, Globals}
use libmacro.Macro.Threads.Limits.{IsLimited}
use libmacro.Macro.Threads.Starting.{start_spawns}
use libmacro.Macro.Run.{up}
use libmacro.Macro.Pool.{Pool, starts, enters, started, with_threads, at_rest, Reach, here, later}

-- After some starts, and before any thread has entered
record IsReady (m : Macro) (g : Globals) (n : ℕ) (p : Pool) : Type 0 where
  limited : IsLimited p.globals.thread_limit p.macro
  going : p.macro.interruptor ≡ continue
  none_counted : p.macro.thread_count ≡ 0
  same_max : p.macro.thread_max ≡ m.thread_max
  same_limit : p.globals.thread_limit ≡ g.thread_limit
  slots : p.globals.active ≡ g.active + n
  waiting : p.made ≡ n

one_start :
    (m : Macro) (g : Globals) (n : ℕ) (p : Pool)
    → IsReady m g n p
    → g.active + suc n ≤ g.thread_limit
    → IsReady m g (suc n) (started true p)
one_start m g n p v room =
    let positive = v.limited.some_thread in
    let e =
      start_spawns p.globals p.macro v.limited
        (inl v.going, omega (arith, positive, v.none_counted))
        (omega (arith, v.slots, v.same_limit)) in
    rw e (record {
      limited = record {
        some_thread = v.limited.some_thread;
        few_threads = v.limited.few_threads;
        few_runs = omega arith;
      };
      going = v.going;
      none_counted = v.none_counted;
      same_max = v.same_max;
      same_limit = v.same_limit;
      slots = omega (arith, v.slots);
      waiting = omega (arith, v.waiting);
    })

many_starts :
    (m : Macro) (g : Globals) (n : ℕ)
    → IsReady m g 0 (at_rest m g)
    → g.active + n ≤ g.thread_limit
    → (p : Pool) × Reach (at_rest m g) p × IsReady m g n p
many_starts m g zero v room = (at_rest m g, here, v)
many_starts m g (suc n) v room =
    let (p, r, ready) = many_starts m g n v (omega arith) in
    (started true p, later r (starts true), one_start m g n p ready room)

many_enters :
    (n : ℕ) (p q : Pool)
    → Reach p q
    → q.made ≡ n
    → q.macro.thread_count + n < 2 ^ 32
    → (s : Pool) × Reach p s
      × (s.macro.thread_count ≡ q.macro.thread_count + n)
      × (s.macro.thread_max ≡ q.macro.thread_max)
many_enters zero p q r made few = (q, r, omega arith, refl)
many_enters (suc n) p q r made few =
    let q' : Pool = record q {
      macro = with_threads (up q.macro.thread_count) q.macro;
      made = n;
      inside = q.inside + 1;
    } in
    let (s, r', count, max) = many_enters n p q' (later r (enters made)) refl (omega arith) in
    (s, r', omega (arith, count), max)

-- The thread limit of a macro does not bound its threads: a macro without threads that is within
-- its limits and not interrupted can come to count as many threads as there are free global slots
-- (under a global limit below 2 ^ 32), if the starts come before the threads.
pub thread_max_overrun :
    (m : Macro) (g : Globals) (n : ℕ)
    → IsLimited g.thread_limit m
    → m.interruptor ≡ continue
    → m.thread_count ≡ 0
    → g.active + n ≤ g.thread_limit
    → g.thread_limit < 2 ^ 32
    → (p : Pool) × Reach (at_rest m g) p
      × (p.macro.thread_count ≡ n)
      × (p.macro.thread_max ≡ m.thread_max)
thread_max_overrun m g n limited going idle room narrow =
    let ready : IsReady m g 0 (at_rest m g) = record {
      limited = limited;
      going = going;
      none_counted = idle;
      same_max = refl;
      same_limit = refl;
      slots = omega arith;
      waiting = refl;
    } in
    let (q, r, v) = many_starts m g n ready room in
    let zero_then = v.none_counted in
    let (p, r', count, max) =
      many_enters n (at_rest m g) q r v.waiting (omega (arith, zero_then)) in
    (p, r', omega (arith, count, zero_then), max ∙ v.same_max)
