-- ===== src/Macro/Run/Loop.antt =====
-- The loop of a thread whose signals leave the macro alone.
use libmacro.Prelude.{
  ℕ, suc, zero, ◌-◌, ◌^◌, ◌≡◌, ◌≢◌, ap, ◌<◌, refl, [], none, some, true, false, ◌==◌, arith, inl,
  inr, Bool-cases,
}
use libmacro.Types.{continue}
use libmacro.Macro.Threads.Limits.{IsLimited}
use libmacro.Macro.Run.{
  Scene, Environment, up, run_preamble, on_run_complete, pause_if_interrupted, consume_interrupt,
  run_loop, run,
}
use libmacro.Macro.Run.Passes.{
  is_empty-false, down-up, IsQuiet, send_all, send_rounds, spent, spent-IsLimited, pass_quiet,
  pass_idle, pass_sticky,
}

module _ {W : Type 0} (sent : ℕ → W → W) where
  module _ (e : Environment W) (quiet : IsQuiet sent e) where
    loop_quiet :
        (n passes : ℕ) (r : Scene W)
        → r.macro.queued ≡ n
        → n < passes
        → r.macro.interruptor ≡ continue
        → r.macro.sticky ≡ false
        → IsLimited r.globals.thread_limit r.macro
        → run_loop e passes r
          ≡ some (record r {
            macro = record r.macro { queued = 0 };
            world = send_rounds sent n r.macro.signals r.world;
          })
    unfolding run_loop
    loop_quiet n zero r q lt c st v = elim (lt) [ ]
    loop_quiet zero (suc passes) r q lt c st v =
        rw (pass_idle sent e quiet r c q st)
          (ap (λ k. some (record r { macro = record r.macro { queued = k } })) q)
    loop_quiet (suc n) (suc passes) r q lt c st v =
        rw (pass_quiet sent e quiet r c v (omega arith)) (
          loop_quiet n passes (spent sent r) (omega arith) (omega arith) c st
            (spent-IsLimited sent r v))

    loop_sticky :
        (passes : ℕ) (r : Scene W)
        → r.macro.interruptor ≡ continue
        → r.macro.sticky ≡ true
        → r.macro.thread_count ≡ 1
        → IsLimited r.globals.thread_limit r.macro
        → run_loop e passes r ≡ none
    unfolding run_loop
    loop_sticky zero r c st one v = refl
    loop_sticky (suc passes) r c st one v = elim (Bool-cases (r.macro.queued == 0)) [
      | inl idle ↦ rw (pass_sticky sent e quiet r c (ground arith) st one) (
          loop_sticky passes (record r { world = send_all sent r.macro.signals r.world }) c st one
            v)
      | inr busy ↦
          rw (pass_quiet sent e quiet r c v (ground arith))
            (loop_sticky passes (spent sent r) c st one (spent-IsLimited sent r v))
    ]

  preamble_on :
      (e : Environment W) (r : Scene W)
      → r.macro.interruptor ≡ continue
      → r.macro.signals ≢ []
      → run_preamble e r
        ≡ (true, record r { macro = record r.macro { thread_count = up r.macro.thread_count } })
  unfolding run_preamble consume_interrupt pause_if_interrupted
  preamble_on e r c ne = simp (c, is_empty-false r.macro.signals ne)

  -- A thread of a macro within its limits that is not interrupted, paused or sticky, counts fewer
  -- than 2 ^ 32 - 1 threads, has a signal, and whose signals leave the macro alone, ends once it
  -- has more passes than there are queued runs, having sent all signals in order once for each
  -- queued run, with an empty queue, itself no longer counted, and one global slot less in use.
  pub run_quiet :
      (e : Environment W) (passes : ℕ) (r : Scene W)
      → IsQuiet sent e
      → r.macro.queued < passes
      → r.macro.interruptor ≡ continue
      → r.macro.sticky ≡ false
      → r.macro.signals ≢ []
      → r.macro.thread_count < 2 ^ 32 - 1
      → IsLimited r.globals.thread_limit r.macro
      → run e passes r
        ≡ some (record {
          macro = record r.macro { queued = 0 };
          globals = record r.globals { active = r.globals.active - 1 };
          world = send_rounds sent r.macro.queued r.macro.signals r.world;
        })
  unfolding run on_run_complete
  run_quiet e passes r quiet enough c st ne few v =
      let entered : Scene W = record r {
        macro = record r.macro { thread_count = up r.macro.thread_count };
      } in
      let v' : IsLimited entered.globals.thread_limit entered.macro = record {
        some_thread = v.some_thread;
        few_threads = v.few_threads;
        few_runs = v.few_runs;
      } in
      let l = loop_quiet e quiet r.macro.queued passes entered refl enough c st v' in
      rw (preamble_on e r c ne, l)
        (ap
          (λ k. some (record {
            macro = record r.macro { thread_count = k; queued = 0 };
            globals = record r.globals { active = r.globals.active - 1 };
            world = send_rounds sent r.macro.queued r.macro.signals r.world;
          }))
          (down-up r.macro.thread_count few))

  -- The only thread of a sticky macro within its limits that is not interrupted or paused, has a
  -- signal, and whose signals leave the macro alone, never ends.
  pub run_sticky :
      (e : Environment W) (passes : ℕ) (r : Scene W)
      → IsQuiet sent e
      → r.macro.interruptor ≡ continue
      → r.macro.sticky ≡ true
      → r.macro.signals ≢ []
      → r.macro.thread_count ≡ 0
      → IsLimited r.globals.thread_limit r.macro
      → run e passes r ≡ none
  unfolding run
  run_sticky e passes r quiet c st ne alone v =
      let entered : Scene W = record r {
        macro = record r.macro { thread_count = up r.macro.thread_count };
      } in
      let v' : IsLimited entered.globals.thread_limit entered.macro = record {
        some_thread = v.some_thread;
        few_threads = v.few_threads;
        few_runs = v.few_runs;
      } in
      let one : entered.macro.thread_count ≡ 1 = omega (arith, alone) in
      rw (preamble_on e r c ne, loop_sticky e quiet passes entered c st one v')
