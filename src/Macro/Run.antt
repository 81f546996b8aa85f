-- ===== src/Macro/Run.antt =====
-- src/macro.cpp: the life of one thread of a macro, `run` and what it calls. The signals, their
-- dispatchers and the other threads are an environment: a delivery may change the macro, the
-- globals and the rest of the world in any way, and may throw.
pub mod Passes
pub mod Loop
pub mod Interrupts
pub mod Caller
use libmacro.Prelude.{
  ℕ, suc, zero, ◌+◌, ◌-◌, ◌%◌, ◌^◌, List, [], ◌∷◌, Option, none, some, Bool, true, false, not, ◌==◌,
  ◌||◌, ◌&&◌, ltb, leb, if◌then◌else◌,
}
use libmacro.Types.{Interrupt, interrupt_value, continue, pause, interrupt, interrupt_all}
use libmacro.Macro.State.{Macro, Globals}
use libmacro.Macro.Dispatching.{is_empty}
use libmacro.Macro.Threads.{dec_queued}
use libmacro.Macro.Control.{same_interrupt, interrupt_locked}

-- What a thread of the macro sees.
pub record Scene (W : Type 0) : Type 0 where
  pub macro : Macro
  pub globals : Globals
  pub world : W

-- `dispatcherPtr` of a signal, the two ways to deliver one, each with whether it threw, and the
-- scene once the wait of `pauseLoop` is over.
pub record Environment (W : Type 0) : Type 0 where
  pub dispatcher_of : ℕ → Scene W → ℕ
  pub dispatch : ℕ → ℕ → Scene W → Bool × Scene W
  pub send : ℕ → Scene W → Bool × Scene W
  pub resumed : Scene W → Scene W

-- `++` and `--` on an `unsigned int`
abbrev pub up : ℕ → ℕ
up n = (n + 1) % 2 ^ 32

abbrev pub down : ℕ → ℕ
down n = (n + (2 ^ 32 - 1)) % 2 ^ 32

abbrev pub at_least : Interrupt → Interrupt → Bool
at_least v w = leb (interrupt_value w) (interrupt_value v)

module _ {W : Type 0} where
  -- `onRunComplete`
  unfoldable pub on_run_complete : Scene W → Scene W
  on_run_complete r = record r {
    macro = record r.macro { thread_count = down r.macro.thread_count };
    globals = record r.globals { active = r.globals.active - 1 };
  }

  -- `consumeInterrupt`: from `INTERRUPT` to `CONTINUE` the call of `setInterruptor` has only its
  -- locked part to do.
  unfoldable pub consume_interrupt : Scene W → Bool × Scene W
  unfolding interrupt_locked
  consume_interrupt r =
      if same_interrupt r.macro.interruptor interrupt
      then (true, record r { macro = (interrupt_locked continue r.macro).1 })
      else (false, r)

  module _ (e : Environment W) where
    open e use {dispatcher_of, dispatch, send, resumed}

    unfoldable pub pause_if_interrupted : Scene W → Scene W
    pause_if_interrupted r = if same_interrupt r.macro.interruptor pause then resumed r else r

    abbrev pub deliver : ℕ → Scene W → Bool × Scene W
    deliver s r = if dispatcher_of s r == 0 then send s r else dispatch (dispatcher_of s r) s r

    -- `dispatchSignals`; the result says whether a signal threw.
    unfoldable pub dispatch_signals : List ℕ → Scene W → Bool × Scene W
    dispatch_signals [] r = (false, r)
    dispatch_signals (s ∷ ss) r =
        let skipped = dispatch_signals ss r in
        let delivered = deliver s r in
        let rest = dispatch_signals ss (delivered.1) in
        if at_least r.macro.interruptor interrupt_all
        then (false, r)
        else if at_least r.macro.interruptor interrupt
        then skipped
        else if s == 0
        then skipped
        else if delivered.0
        then delivered
        else rest

    -- `runPreamble`; the result says whether the thread goes on.
    unfoldable pub run_preamble : Scene W → Bool × Scene W
    unfolding on_run_complete consume_interrupt pause_if_interrupted
    run_preamble r =
        let entered = record r {
          macro = record r.macro { thread_count = up r.macro.thread_count };
        } in
        let consumed = consume_interrupt entered in
        if consumed.0
        then (false, on_run_complete (consumed.1))
        else if is_empty entered.macro.signals
        then (false, on_run_complete entered)
        else (true, pause_if_interrupted entered)

    -- A pass of the loop that sends the signals; the result says whether there is another pass.
    unfoldable pub send_pass : Scene W → Bool × Scene W
    unfolding dispatch_signals pause_if_interrupted
    send_pass r =
        let sent = dispatch_signals r.macro.signals r in
        if sent.0 then (false, sent.1) else (true, pause_if_interrupted (sent.1))

    -- The body of the `do` loop of `run`
    unfoldable pub pass : Scene W → Bool × Scene W
    unfolding send_pass consume_interrupt dec_queued
    pass r =
        let consumed = consume_interrupt r in
        let idle = r.macro.queued == 0 in
        if consumed.0
        then (false, consumed.1)
        else if at_least r.macro.interruptor interrupt_all
        then (false, r)
        else if idle && (not r.macro.sticky || ltb 1 r.macro.thread_count)
        then (false, r)
        else if idle
        then send_pass r
        else send_pass (record r { macro = dec_queued r.globals.thread_limit r.macro })

    -- The `do` loop of `run`, `none` when the passes given to it do not end it
    unfoldable pub run_loop : ℕ → Scene W → Option (Scene W)
    unfolding pass
    run_loop zero r = none
    run_loop (suc passes) r =
        let (again, r') = pass r in let rest = run_loop passes r' in if again then rest else some r'

    -- `run`
    unfoldable pub run : ℕ → Scene W → Option (Scene W)
    unfolding run_loop run_preamble on_run_complete
    run passes r =
        let entered = run_preamble r in
        if entered.0
        then (elim (run_loop passes (entered.1)) [
          | none ↦ none
          | some left ↦ some (on_run_complete left)
        ])
        else some (entered.1)
