-- ===== src/Macro/Run/Interrupts.antt =====
-- What an interrupt does to a thread, in any environment.
use libmacro.Prelude.{
  ℕ, suc, ◌-◌, ◌^◌, ◌≡◌, ◌≢◌, ap, ◌⊎◌, inl, inr, refl, ◌<◌, List, [], ◌∷◌, ◌++◌, some, Bool, true,
  false, ◌==◌, if◌then◌else◌, arith, Bool-cases,
}
use libmacro.Types.{Interrupt, continue, pause, interrupt, interrupt_all, disable}
use libmacro.Macro.Control.{same_interrupt, interrupt_locked}
use libmacro.Macro.Run.{
  Scene, Environment, at_least, deliver, dispatch_signals, consume_interrupt, run_preamble,
  on_run_complete, pass, run_loop, run,
}
use libmacro.Macro.Run.Passes.{down-up}

Interrupt-cases :
    (v : Interrupt)
    → (v ≡ continue) ⊎ ((v ≡ pause) ⊎ ((v ≡ interrupt) ⊎ ((v ≡ interrupt_all) ⊎ (v ≡ disable))))
Interrupt-cases continue = inl refl
Interrupt-cases pause = inr (inl refl)
Interrupt-cases interrupt = inr (inr (inl refl))
Interrupt-cases interrupt_all = inr (inr (inr (inl refl)))
Interrupt-cases disable = inr (inr (inr (inr refl)))

-- The four tests of `dispatchSignals` choose the same branch whatever follows.
same_branch :
    {X : Type 0} {skip skip' rest rest' q : X} (over thrown : X) (all any null threw : Bool)
    → (if all
        then over
        else if any
        then skip
        else if null
        then skip
        else if threw
        then thrown
        else rest)
      ≡ q
    → (skip ≡ q → skip' ≡ q)
    → (rest ≡ q → rest' ≡ q)
    → (if all
        then over
        else if any
        then skip'
        else if null
        then skip'
        else if threw
        then thrown
        else rest')
      ≡ q
same_branch over thrown true any null threw h f g = h
same_branch over thrown false true null threw h f g = f h
same_branch over thrown false false true threw h f g = f h
same_branch over thrown false false false true h f g = h
same_branch over thrown false false false false h f g = g h

module _ {W : Type 0} where
  dispatch_none :
      (e : Environment W) (ss : List ℕ) (r : Scene W)
      → at_least r.macro.interruptor interrupt ≡ true
      → dispatch_signals e ss r ≡ (false, r)
  unfolding dispatch_signals
  dispatch_none e [] r i = refl
  dispatch_none e (s ∷ ss) r i = elim (Bool-cases (at_least r.macro.interruptor interrupt_all)) [
    | inl all ↦ simp all
    | inr one ↦ simp (one, i) (dispatch_none e ss r i)
  ]

  scene_inj : {p q : Bool × Scene W} → p ≡ q → p.1 ≡ q.1
  scene_inj h = ap (λ p. p.1) h

  -- In any environment, if sending some signals leaves the macro interrupted, none of the signals
  -- after them is sent.
  pub dispatch_signals_cut :
      (e : Environment W) (before after : List ℕ) (r r' : Scene W)
      → dispatch_signals e before r ≡ (false, r')
      → at_least r'.macro.interruptor interrupt ≡ true
      → dispatch_signals e (before ++ after) r ≡ (false, r')
  unfolding dispatch_signals
  dispatch_signals_cut e [] after r r' sent i = rw (scene_inj sent) (dispatch_none e after r' i)
  dispatch_signals_cut e (s ∷ ss) after r r' sent i =
      same_branch _ _ (at_least r.macro.interruptor interrupt_all)
        (at_least r.macro.interruptor interrupt) (s == 0) ((deliver e s r).0) sent
        (λ h. dispatch_signals_cut e ss after r r' h i)
        (λ h. dispatch_signals_cut e ss after ((deliver e s r).1) r' h i)

  -- A thread that finds the macro interrupted, with fewer than 2 ^ 32 - 1 threads counted, ends
  -- in its first pass at the latest, in any environment, and sends nothing; INTERRUPT is used up
  -- and the macro continues, INTERRUPT_ALL and DISABLE stay; the queue is as it was, the thread
  -- is no longer counted and one global slot less is in use.
  pub run_interrupted :
      (e : Environment W) (passes : ℕ) (r : Scene W)
      → r.macro.interruptor ≢ continue
      → r.macro.interruptor ≢ pause
      → r.macro.thread_count < 2 ^ 32 - 1
      → run e (suc passes) r
        ≡ some (record r {
          macro = record r.macro {
            interruptor =
                if same_interrupt r.macro.interruptor interrupt
                then continue
                else r.macro.interruptor;
          };
          globals = record r.globals { active = r.globals.active - 1 };
        })
  unfolding run run_preamble run_loop pass consume_interrupt on_run_complete interrupt_locked
  run_interrupted e passes r c p few =
      let cases = Interrupt-cases r.macro.interruptor in
      let d = down-up r.macro.thread_count few in ground arith
