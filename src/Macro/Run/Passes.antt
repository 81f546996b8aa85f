-- ===== src/Macro/Run/Passes.antt =====
-- A pass of the loop of a thread whose signals leave the macro alone.
use libmacro.Prelude.{
  ℕ, suc, zero, ◌-◌, ◌^◌, ◌≡◌, ◌≢◌, ap, ◌<◌, ◌∙◌, refl, List, [], ◌∷◌, true, false, ◌==◌,
  if◌then◌else◌, arith, inl, inr, Bool-cases,
}
use libmacro.Types.{continue}
use libmacro.Macro.State.{Macro}
use libmacro.Macro.Dispatching.{is_empty}
use libmacro.Macro.Threads.{limit_max_threads, dec_queued}
use libmacro.Macro.Threads.Limits.{IsLimited}
use libmacro.Macro.Run.{
  Scene, Environment, up, down, deliver, dispatch_signals, pause_if_interrupted, consume_interrupt,
  send_pass, pass,
}

dec_queued_limited :
    (limit : ℕ) (m : Macro)
    → IsLimited limit m
    → m.queued ≢ 0
    → dec_queued limit m ≡ record m { queued = m.queued - 1 }
unfolding dec_queued limit_max_threads
dec_queued_limited limit m v some_run = ground arith

pub is_empty-false : {A : Type 0} (xs : List A) → xs ≢ [] → is_empty xs ≡ false
is_empty-false [] ne = elim (ne refl) [ ]
is_empty-false (x ∷ xs) ne = refl

pub down-up : (n : ℕ) → n < 2 ^ 32 - 1 → down (up n) ≡ n
down-up n h = omega arith

module _ {W : Type 0} (sent : ℕ → W → W) where
  -- A delivery does not throw, and leaves the macro and the globals as they are.
  abbrev pub IsQuiet : Environment W → Type 0
  IsQuiet e = (s : ℕ) (r : Scene W) → deliver e s r ≡ (false, record r { world = sent s (r.world) })

  -- One round of the signals that are not null, in order.
  abbrev pub send_all : List ℕ → W → W
  send_all [] w = w
  send_all (s ∷ ss) w = if s == 0 then send_all ss w else send_all ss (sent s w)

  -- Some rounds of the signals, one after the other.
  abbrev pub send_rounds : ℕ → List ℕ → W → W
  send_rounds zero ss w = w
  send_rounds (suc n) ss w = send_rounds n ss (send_all ss w)

  -- After a pass with a queued run
  abbrev pub spent : Scene W → Scene W
  spent r = record r {
    macro = record r.macro { queued = r.macro.queued - 1 };
    world = send_all r.macro.signals r.world;
  }

  pub spent-IsLimited :
      (r : Scene W)
      → IsLimited r.globals.thread_limit r.macro
      → IsLimited r.globals.thread_limit ((spent r).macro)
  spent-IsLimited r v = record {
    some_thread = v.some_thread;
    few_threads = v.few_threads;
    few_runs = omega (arith, v.few_runs);
  }

  module _ (e : Environment W) (quiet : IsQuiet e) where
    dispatch_quiet :
        (ss : List ℕ) (r : Scene W)
        → r.macro.interruptor ≡ continue
        → dispatch_signals e ss r ≡ (false, record r { world = send_all ss r.world })
    unfolding dispatch_signals
    dispatch_quiet [] r c = refl
    dispatch_quiet (s ∷ ss) r c =
        let r' : Scene W = record r { world = sent s r.world } in
        elim (Bool-cases (s == 0)) [
          | inl null ↦ simp (c, null, dispatch_quiet ss r c)
          | inr real ↦ simp (c, real, quiet s r, dispatch_quiet ss r' c)
        ]

    send_quiet :
        (r : Scene W)
        → r.macro.interruptor ≡ continue
        → send_pass e r ≡ (true, record r { world = send_all r.macro.signals r.world })
    unfolding send_pass pause_if_interrupted
    send_quiet r c = simp (dispatch_quiet r.macro.signals r c, c)

    pass_busy :
        (r : Scene W)
        → r.macro.interruptor ≡ continue
        → (r.macro.queued == 0) ≡ false
        → pass e r ≡ send_pass e (record r { macro = dec_queued r.globals.thread_limit r.macro })
    unfolding pass consume_interrupt
    pass_busy r c busy = simp (c, busy)

    pub pass_quiet :
        (r : Scene W)
        → r.macro.interruptor ≡ continue
        → IsLimited r.globals.thread_limit r.macro
        → r.macro.queued ≢ 0
        → pass e r ≡ (true, spent r)
    pass_quiet r c v some_run =
        let d = dec_queued_limited r.globals.thread_limit r.macro v some_run in
        pass_busy r c (ground arith)
        ∙ ap (λ m. send_pass e (record r { macro = m })) d
        ∙ send_quiet (record r { macro = record r.macro { queued = r.macro.queued - 1 } }) c

    pub pass_idle :
        (r : Scene W)
        → r.macro.interruptor ≡ continue
        → r.macro.queued ≡ 0
        → r.macro.sticky ≡ false
        → pass e r ≡ (false, r)
    unfolding pass consume_interrupt
    pass_idle r c q st = simp (c, q, st)

    pub pass_sticky :
        (r : Scene W)
        → r.macro.interruptor ≡ continue
        → r.macro.queued ≡ 0
        → r.macro.sticky ≡ true
        → r.macro.thread_count ≡ 1
        → pass e r ≡ (true, record r { world = send_all r.macro.signals r.world })
    unfolding pass consume_interrupt
    pass_sticky r c q st one = simp (c, q, st, one) (send_quiet r c)
