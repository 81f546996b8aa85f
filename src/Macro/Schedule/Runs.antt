-- ===== src/Macro/Schedule/Runs.antt =====
-- The runs that starts put into the queue, where nothing disturbs the macro.
use libmacro.Prelude.{
  ℕ, ◌≤◌, ◌<◌, ◌≡◌, ◌≢◌, ◌⊎◌, inl, inr, refl, List, ◌∷◌, ◌++◌, true, false, arith,
}
use libmacro.Types.{continue}
use libmacro.Macro.State.{Macro}
use libmacro.Macro.Dispatching.{is_empty}
use libmacro.Macro.Threads.{dec_queued, limit_max_threads}
use libmacro.Macro.Control.{interrupt_locked}
use libmacro.Macro.Schedule.{
  Place, Shared, System, Move, after_start, consuming, lingering, completing, leaving, gone,
}
use libmacro.Macro.Schedule.Places.{total, is_delivering}

-- Moves of threads, none of which throws from a signal, and starts that can make a thread
pub data Undisturbed (s : System) : System → Type 0 where
  at_rest : Undisturbed s s
  moves :
      {t : System} {p q : Place} {shared : Shared} (before after : List Place)
      → Undisturbed s t
      → t.places ≡ before ++ p ∷ after
      → Move t.shared p shared q
      → (is_delivering p ≡ 0) ⊎ (q ≢ completing)
      → Undisturbed s (record t { shared = shared; places = before ++ q ∷ after })
  begins : {t : System} → Undisturbed s t → Undisturbed s (after_start true t)

-- The thread is to look at the queue again.
abbrev pub will_look : Place → ℕ
will_look consuming = 0
will_look lingering = 0
will_look completing = 0
will_look leaving = 0
will_look gone = 0
will_look _ = 1

-- The macro continues, has signals, and has no run queued without a thread that is to look at the
-- queue.
pub record IsServed (s : System) : Type 0 where
  pub going : s.shared.macro.interruptor ≡ continue
  pub some_signals : is_empty s.shared.macro.signals ≡ false
  pub served : (s.shared.macro.queued ≡ 0) ⊎ (0 < total will_look s.places)

-- What a move does to the macro and to the looks at the queue that are to come
pub record IsServing (m n : Macro) (p q : Place) : Type 0 where
  pub same_interruptor : n.interruptor ≡ continue
  pub same_signals : n.signals ≡ m.signals
  pub no_more : n.queued ≤ m.queued
  pub looks : (n.queued ≡ 0) ⊎ (will_look p ≤ will_look q)

dec_queued-IsServing :
    (limit : ℕ) (m : Macro) (p q : Place)
    → m.interruptor ≡ continue
    → will_look p ≤ will_look q
    → IsServing m (dec_queued limit m) p q
unfolding dec_queued limit_max_threads
dec_queued-IsServing limit m p q going more = record {
  same_interruptor = ground (arith, going);
  same_signals = ground arith;
  no_more = ground arith;
  looks = inr more;
}

consume-IsServing :
    (m : Macro) (p q : Place)
    → will_look p ≤ will_look q
    → IsServing m (interrupt_locked continue m).1 p q
unfolding interrupt_locked
consume-IsServing m p q more = record {
  same_interruptor = refl;
  same_signals = refl;
  no_more = omega arith;
  looks = inr more;
}

stays_so :
    (m : Macro) (p q : Place)
    → m.interruptor ≡ continue
    → (m.queued ≡ 0) ⊎ (will_look p ≤ will_look q)
    → IsServing m m p q
stays_so m p q going looks = record {
  same_interruptor = going;
  same_signals = refl;
  no_more = omega arith;
  looks = looks;
}

pub Move-IsServing :
    {s t : Shared} {p q : Place}
    → Move s p t q
    → s.macro.interruptor ≡ continue
    → is_empty s.macro.signals ≡ false
    → (is_delivering p ≡ 0) ⊎ (q ≢ completing)
    → IsServing s.macro t.macro p q
Move-IsServing {s = s} Move.enter g e d = record {
  same_interruptor = g;
  same_signals = refl;
  no_more = omega arith;
  looks = inr (omega arith);
}
Move-IsServing {s = s} {p = p} {q = q} (Move.preamble_interrupted h) g e d =
    absurd (ground (arith, g))
Move-IsServing {s = s} {p = p} {q = q} (Move.preamble_free h) g e d =
    stays_so s.macro p q g (inr (omega arith))
Move-IsServing {s = s} {p = p} {q = q} (Move.no_signals h) g e d = absurd (cc (h, e))
Move-IsServing {s = s} {p = p} {q = q} (Move.some_signals h) g e d =
    stays_so s.macro p q g (inr (omega arith))
Move-IsServing {s = s} {p = p} {q = q} (Move.pauses h) g e d =
    stays_so s.macro p q g (inr (omega arith))
Move-IsServing {s = s} {p = p} {q = q} (Move.goes_on h) g e d =
    stays_so s.macro p q g (inr (omega arith))
Move-IsServing {s = s} {p = p} {q = q} (Move.resumes h) g e d =
    stays_so s.macro p q g (inr (omega arith))
Move-IsServing {s = s} {p = p} {q = q} (Move.loop_interrupted h) g e d = absurd (ground (arith, g))
Move-IsServing {s = s} {p = p} {q = q} (Move.loop_free h) g e d =
    stays_so s.macro p q g (inr (omega arith))
Move-IsServing {s = s} {p = p} {q = q} Move.consume g e d =
    consume-IsServing s.macro p q (omega arith)
Move-IsServing {s = s} {p = p} {q = q} (Move.stops h) g e d = absurd (ground (arith, g))
Move-IsServing {s = s} {p = p} {q = q} (Move.decides h) g e d =
    stays_so s.macro p q g (inr (omega arith))
Move-IsServing {s = s} {p = p} {q = q} (Move.is_idle h) g e d = stays_so s.macro p q g (inl h)
Move-IsServing {s = s} {p = p} {q = q} (Move.is_busy h) g e d =
    stays_so s.macro p q g (inr (omega arith))
Move-IsServing {s = s} {p = p} {q = q} (Move.leaves h) g e d =
    stays_so s.macro p q g (inr (omega arith))
Move-IsServing {s = s} {p = p} {q = q} (Move.stays h) g e d =
    stays_so s.macro p q g (inr (omega arith))
Move-IsServing {s = s} {p = p} {q = q} Move.takes g e d =
    dec_queued-IsServing s.globals.thread_limit s.macro p q g (omega arith)
Move-IsServing {s = s} {p = p} {q = q} (Move.breaks h) g e d =
    stays_so s.macro p q g (inr (omega arith))
Move-IsServing {s = s} {p = p} {q = q} (Move.skips h n) g e d =
    stays_so s.macro p q g (inr (omega arith))
Move-IsServing {s = s} {p = p} {q = q} (Move.passes h) g e d =
    stays_so s.macro p q g (inr (omega arith))
Move-IsServing {s = s} {p = p} {q = q} Move.sends g e d = stays_so s.macro p q g (inr (omega arith))
Move-IsServing Move.throws g e (inl d) = absurd (omega arith)
Move-IsServing Move.throws g e (inr d) = absurd (d refl)
Move-IsServing {s = s} {p = p} {q = q} Move.all_sent g e d =
    stays_so s.macro p q g (inr (omega arith))
Move-IsServing {s = s} Move.complete g e d = record {
  same_interruptor = g;
  same_signals = refl;
  no_more = omega arith;
  looks = inr (omega arith);
}
Move-IsServing {s = s} {p = p} {q = q} Move.release g e d =
    stays_so s.macro p q g (inr (omega arith))
