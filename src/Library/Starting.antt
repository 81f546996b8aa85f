-- ===== src/Library/Starting.antt =====
-- What a start leaves of a macro, and so do many.
use libmacro.Prelude.{max, ◌≤◌, ◌≡◌, ◌∙◌, sym, ◌⊎◌, inl, inr, ap, refl, Bool, false, arith, subst}
use libmacro.Types.{continue, interrupt, interrupt_all}
use libmacro.Macro.State.{Macro, Globals}
use libmacro.Macro.Threads.{start}
use libmacro.Macro.Control.Limits.{with_control}
use libmacro.Macro.Run.{at_least}

-- The interruptor is as it was, or an INTERRUPT is over.
abbrev pub Calmer : Macro → Macro → Type 0
Calmer m n =
    (n.interruptor ≡ m.interruptor) ⊎ ((m.interruptor ≡ interrupt) × (n.interruptor ≡ continue))

-- What starts may change of one macro: nothing at all, and if it is neither in INTERRUPT_ALL nor
-- disabled, threads and runs are added, runs are dropped where the queue is over a limit or no thread
-- can be made, and an INTERRUPT is over.
pub record IsStartedFrom (m n : Macro) : Type 0 where
  pub same_setup : n ≡ with_control n m
  pub same_count : n.thread_count ≡ m.thread_count
  pub more_threads : m.threads ≤ n.threads
  pub moved : (n ≡ m) ⊎ ((at_least m.interruptor interrupt_all ≡ false) × Calmer m n)

start_moved :
    (available : Bool) (g : Globals) (m : Macro)
    → let n = (start available g m).macro in
      (n ≡ m) ⊎ ((at_least m.interruptor interrupt_all ≡ false) × Calmer m n)
unfolding start
start_moved available g m = ground arith

pub start-IsStartedFrom :
    (available : Bool) (g : Globals) (m : Macro) → IsStartedFrom m (start available g m).macro
unfolding start
start-IsStartedFrom available g m = record {
  same_setup = ground arith;
  same_count = ground arith;
  more_threads = ground arith;
  moved = start_moved available g m;
}

pub IsStartedFrom-refl : (m : Macro) → IsStartedFrom m m
IsStartedFrom-refl m = record {
  same_setup = refl;
  same_count = refl;
  more_threads = omega arith;
  moved = inl refl;
}

Calmer-trans : (m n o : Macro) → Calmer m n → Calmer n o → Calmer m o
Calmer-trans m n o (inl e) (inl f) = inl (f ∙ e)
Calmer-trans m n o (inl e) (inr (f, g)) = inr (cc (e, f), g)
Calmer-trans m n o (inr (e, g)) (inl f) = inr (e, f ∙ g)
Calmer-trans m n o (inr (e, g)) (inr (f, h)) = absurd (cc (g, f))

moved_on :
    (m n o : Macro)
    → (n ≡ m) ⊎ ((at_least m.interruptor interrupt_all ≡ false) × Calmer m n)
    → (o ≡ n) ⊎ ((at_least n.interruptor interrupt_all ≡ false) × Calmer n o)
    → (o ≡ m) ⊎ ((at_least m.interruptor interrupt_all ≡ false) × Calmer m o)
moved_on m n o (inl e) (inl f) = inl (f ∙ e)
moved_on m n o (inl e) (inr (h, c)) =
    inr (subst (λ x. (at_least x.interruptor interrupt_all ≡ false) × Calmer x o) e (h, c))
moved_on m n o (inr (h, c)) (inl f) = inr (h, subst (Calmer m) (sym f) c)
moved_on m n o (inr (h, c)) (inr (_, d)) = inr (h, Calmer-trans m n o c d)

pub IsStartedFrom-trans :
    {m n o : Macro} → IsStartedFrom m n → IsStartedFrom n o → IsStartedFrom m o
IsStartedFrom-trans {m = m} {n = n} {o = o} v w = record {
  same_setup = w.same_setup ∙ ap (with_control o) v.same_setup;
  same_count = w.same_count ∙ v.same_count;
  more_threads = omega (arith, v.more_threads, w.more_threads);
  moved = moved_on m n o v.moved w.moved;
}

pub start_globals :
    (available : Bool) (g : Globals) (m : Macro)
    → let n = (start available g m).globals in
      (n.thread_limit ≡ g.thread_limit)
      × (g.active ≤ n.active)
      × (n.active ≤ max g.active g.thread_limit)
unfolding start
start_globals available g m = (ground arith, ground arith, ground arith)
