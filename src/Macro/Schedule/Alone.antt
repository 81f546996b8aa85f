-- ===== src/Macro/Schedule/Alone.antt =====
-- What a thread does alone, in `run`, is among the moves that it may make between others.
use libmacro.Prelude.{
  ℕ, zero, suc, ◌≡◌, ◌∙◌, ap, refl, subst, sym, List, [], ◌∷◌, none, some, true, false, ◌==◌, ◌||◌,
  if◌then◌else◌, arith, Bool-cases, inl, inr, Option-cases,
}
use mathlib.Core.Option.{some_inj}
use libmacro.Macro.Pool.{with_threads}
use libmacro.Macro.Run.{up}
use libmacro.Types.{continue, pause, interrupt}
use libmacro.Macro.Dispatching.{is_empty}
use libmacro.Macro.Threads.{dec_queued}
use libmacro.Macro.Control.{interrupt_locked, same_interrupt}
use libmacro.Macro.Run.{
  Scene, Environment, at_least, deliver, dispatch_signals, on_run_complete, consume_interrupt,
  pause_if_interrupted, run_preamble, send_pass, pass, run_loop, run,
}
use libmacro.Macro.Schedule.{
  Shared, Place, Move, dispensable, interrupted_now, paused_now, stopped_now, fresh, entered, head,
  pausing, completing, gone, sending,
}
use libmacro.Macro.Schedule.Ending.{Turns, dec_queued-SameControl}
use libmacro.Macro.Schedule.Moves.{
  Moves, then_move, Moves-trans, Move-Moves, with_thread, Moves-Turns,
}

-- What the threads share, where the world is the list of the signals sent
abbrev pub shared_of : Scene (List ℕ) → Shared
shared_of r = record { macro = r.macro; globals = r.globals; sent = r.world }

module _ (e : Environment (List ℕ))
    (logs : (a : ℕ) (r : Scene (List ℕ))
      → deliver e a r ≡ (false, record r { world = a ∷ r.world })) where
  -- The thread sends its signals to the end, and leaves the macro and the globals alone.
  dispatch_signals-Moves :
      (ss : List ℕ) (r : Scene (List ℕ))
      → (sent : List ℕ) × (dispatch_signals e ss r ≡ (false, record r { world = sent }))
        × Moves (shared_of r) (sending ss) (shared_of (record r { world = sent })) pausing
  unfolding dispatch_signals
  dispatch_signals-Moves [] r = (r.world, refl, Move-Moves Move.all_sent)
  dispatch_signals-Moves (a ∷ ss) r = elim (Bool-cases (stopped_now r.macro)) [
    | inl stopped ↦ (r.world, simp stopped refl, Move-Moves (Move.breaks stopped))
    | inr free ↦ elim (Bool-cases (at_least r.macro.interruptor interrupt || a == 0)) [
      | inl skip ↦
          let (sent, same, moves) = dispatch_signals-Moves ss r in
          (sent, ground (arith, same), Moves-trans (Move-Moves (Move.skips free skip)) moves)
      | inr send ↦
          let (sent, same, moves) = dispatch_signals-Moves ss (record r { world = a ∷ r.world }) in
          (
            sent,
            ground (arith, logs a r, same),
            Moves-trans (then_move (Move-Moves (Move.passes send)) Move.sends) moves,
          )
    ]
  ]

  send_pass-Moves :
      (r : Scene (List ℕ))
      → paused_now r.macro ≡ false
      → (sent : List ℕ) × (send_pass e r ≡ (true, record r { world = sent }))
        × Moves (shared_of r) (sending r.macro.signals) (shared_of (record r { world = sent })) head
  unfolding send_pass pause_if_interrupted
  send_pass-Moves r free =
      let (sent, same, moves) = dispatch_signals-Moves r.macro.signals r in
      (sent, ground (arith, same), then_move moves (Move.goes_on free))

  pass_takes :
      (r : Scene (List ℕ))
      → interrupted_now r.macro ≡ false
      → stopped_now r.macro ≡ false
      → (r.macro.queued == 0) ≡ false
      → pass e r ≡ send_pass e (record r { macro = dec_queued r.globals.thread_limit r.macro })
  unfolding pass consume_interrupt
  pass_takes r through on queued = ground arith

  -- A pass that goes on ends at the head of the loop, and the last one before `onRunComplete`.
  pass-Moves :
      (r : Scene (List ℕ))
      → paused_now r.macro ≡ false
      → (paused_now (pass e r).1.macro ≡ false)
        × Moves
            (shared_of r)
            head
            (shared_of (pass e r).1)
            (if (pass e r).0 then head else completing)
  unfolding pass consume_interrupt interrupt_locked
  pass-Moves r free = elim (Bool-cases (interrupted_now r.macro)) [
    | inl hit ↦ simp hit (refl, then_move (Move-Moves (Move.loop_interrupted hit)) Move.consume)
    | inr through ↦ elim (Bool-cases (stopped_now r.macro)) [
      | inl stopped ↦
          simp (through, stopped)
            (free, then_move (Move-Moves (Move.loop_free through)) (Move.stops stopped))
      | inr on ↦
          let decided = then_move (Move-Moves (Move.loop_free through)) (Move.decides on) in
          elim (Bool-cases (r.macro.queued == 0)) [
            | inl empty ↦
                let linger = then_move decided (Move.is_idle (ground arith)) in
                elim (Bool-cases (dispensable r.macro)) [
                  | inl over ↦
                      simp (through, on, empty, over) (free, then_move linger (Move.leaves over))
                  | inr stay ↦
                      let (sent, same, moves) = send_pass-Moves r free in
                      let passed : pass e r ≡ (true, record r { world = sent }) =
                        simp (through, on, empty, stay) same in
                      rw passed (free, Moves-trans (then_move linger (Move.stays stay)) moves)
                ]
            | inr queued ↦
                let m = dec_queued r.globals.thread_limit r.macro in
                let control = dec_queued-SameControl r.globals.thread_limit r.macro in
                let free' : paused_now m ≡ false =
                  ap (λ v. same_interrupt v pause) control.same_interruptor ∙ free in
                let (sent, same, moves) = send_pass-Moves (record r { macro = m }) free' in
                let take = then_move (then_move decided (Move.is_busy (ground arith))) Move.takes in
                let kept : Moves (shared_of r) head (shared_of (record r { macro = m }))
                    (sending m.signals) =
                  subst
                    (λ ss.
                      Moves (shared_of r) head (shared_of (record r { macro = m })) (sending ss))
                    (sym control.same_signals) take in
                let passed : pass e r ≡ (true, record r { macro = m; world = sent }) =
                  pass_takes r through on queued ∙ same in
                rw passed (free', Moves-trans kept moves)
          ]
    ]
  ]

  run_loop-Moves :
      (passes : ℕ) (r r' : Scene (List ℕ))
      → paused_now r.macro ≡ false
      → run_loop e passes r ≡ some r'
      → Moves (shared_of r) head (shared_of r') completing
  unfolding run_loop
  run_loop-Moves zero r r' free returns = cc
  run_loop-Moves (suc passes) r r' free returns =
      let (free', moves) = pass-Moves r free in
      elim (Bool-cases (pass e r).0) [
        | inl again ↦
            let first : Moves (shared_of r) head (shared_of (pass e r).1) head =
              simp again at moves in
            let rest : run_loop e passes (pass e r).1 ≡ some r' = simp again at returns in
            Moves-trans first (run_loop-Moves passes (pass e r).1 r' free' rest)
        | inr over ↦
            let only : Moves (shared_of r) head (shared_of (pass e r).1) completing =
              simp over at moves in
            let same : some (pass e r).1 ≡ some r' = simp over at returns in
            subst (λ q. Moves (shared_of r) head (shared_of q) completing) (some_inj.0 same) only
      ]

  complete-Moves :
      (s : Shared) (p : Place) (r : Scene (List ℕ))
      → Moves s p (shared_of r) completing
      → Moves s p (shared_of (on_run_complete r)) gone
  unfolding on_run_complete
  complete-Moves s p r moves = then_move (then_move moves Move.complete) Move.release

  run-Moves :
      (passes : ℕ) (r r' : Scene (List ℕ))
      → paused_now r.macro ≡ false
      → run e passes r ≡ some r'
      → Moves (shared_of r) fresh (shared_of r') gone
  unfolding run run_preamble consume_interrupt pause_if_interrupted interrupt_locked
  run-Moves passes r r' free returns =
      let m = with_threads (up r.macro.thread_count) r.macro in
      let here : Scene (List ℕ) = record r { macro = m } in
      let enter : Moves (shared_of r) fresh (shared_of here) entered = Move-Moves Move.enter in
      elim (Bool-cases (interrupted_now r.macro)) [
        | inl hit ↦
            let same : some
                  (on_run_complete (record here { macro = (interrupt_locked continue m).1 }))
                ≡ some r' =
              simp hit at returns in
            subst (λ q. Moves (shared_of r) fresh (shared_of q) gone) (some_inj.0 same)
              (complete-Moves _ _ _
                (then_move (then_move enter (Move.preamble_interrupted hit)) Move.consume))
        | inr through ↦
            let ready_now = then_move enter (Move.preamble_free through) in
            elim (Bool-cases (is_empty r.macro.signals)) [
              | inl idle_now ↦
                  let same : some (on_run_complete here) ≡ some r' =
                    simp (through, idle_now) at returns in
                  subst (λ q. Moves (shared_of r) fresh (shared_of q) gone) (some_inj.0 same)
                    (complete-Moves _ _ _ (then_move ready_now (Move.no_signals idle_now)))
              | inr busy ↦
                  let head_now =
                    then_move (then_move ready_now (Move.some_signals busy)) (Move.goes_on free) in
                  elim (Option-cases (run_loop e passes here)) [
                    | inl none_left ↦
                        let bad : none ≡ some r' =
                          simp (through, busy, free, none_left) at returns in
                        absurd (cc)
                    | inr (left, looped) ↦
                        let same : some (on_run_complete left) ≡ some r' =
                          simp (through, busy, free, looped) at returns in
                        subst (λ q. Moves (shared_of r) fresh (shared_of q) gone) (some_inj.0 same)
                          (complete-Moves _ _ _
                            (Moves-trans head_now (run_loop-Moves passes here left free looped)))
                  ]
            ]
      ]

  -- If every delivery of a signal adds it to the signals sent and does nothing else, and the
  -- macro is not paused, then what `run` returns is also what some moves of a fresh thread lead
  -- to, from its first place to its last, while the threads around it stand still.
  pub run_refines :
      (passes : ℕ) (r r' : Scene (List ℕ)) (before after : List Place) (others : ℕ)
      → paused_now r.macro ≡ false
      → run e passes r ≡ some r'
      → (n : ℕ) × Turns
          (with_thread before after others (shared_of r) fresh)
          n
          (with_thread before after others (shared_of r') gone)
  run_refines passes r r' before after others free returns =
      Moves-Turns before after others (run-Moves passes r r' free returns)
