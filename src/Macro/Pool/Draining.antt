-- ===== src/Macro/Pool/Draining.antt =====
-- The end of all threads of a macro.
use libmacro.Prelude.{ℕ, suc, zero, ◌^◌, ◌<◌, ◌≤◌, ◌≡◌, ◌∙◌, refl, arith}
use libmacro.Macro.State.{Macro, Globals}
use libmacro.Macro.Pool.{Pool, enters, completes, releases, at_rest, Reach, here, later}
use libmacro.Macro.Pool.Counts.{IsCounted, Step-IsCounted, threads_bounded}

-- The state that the steps of the macro's own threads lead to.
record Drained (p : Pool) (others : ℕ) : Type 0 where
  last_pool : Pool
  reached : Reach p last_pool
  counts : IsCounted last_pool
  none_made : last_pool.made ≡ 0
  none_inside : last_pool.inside ≡ 0
  none_leaving : last_pool.leaving ≡ 0
  same_others : last_pool.others ≡ others

drain_leaving :
    (n : ℕ) (p q : Pool)
    → Reach p q
    → IsCounted q
    → q.made ≡ 0
    → q.inside ≡ 0
    → q.leaving ≡ n
    → Drained p q.others
drain_leaving zero p q r v made inside leaving = record {
  last_pool = q;
  reached = r;
  counts = v;
  none_made = made;
  none_inside = inside;
  none_leaving = leaving;
  same_others = refl;
}
drain_leaving (suc n) p q r v made inside leaving =
    drain_leaving n p _ (later r (releases leaving)) (Step-IsCounted (releases leaving) v) made
      inside refl

drain_inside :
    (n : ℕ) (p q : Pool) → Reach p q → IsCounted q → q.made ≡ 0 → q.inside ≡ n → Drained p q.others
drain_inside zero p q r v made inside = drain_leaving q.leaving p q r v made inside refl
drain_inside (suc n) p q r v made inside =
    drain_inside n p _ (later r (completes inside)) (Step-IsCounted (completes inside) v) made refl

drain_made : (n : ℕ) (p q : Pool) → Reach p q → IsCounted q → q.made ≡ n → Drained p q.others
drain_made zero p q r v made = drain_inside q.inside p q r v made refl
drain_made (suc n) p q r v made =
    drain_made n p _ (later r (enters made)) (Step-IsCounted (enters made) v) refl

-- From every state that interleaved steps can reach from a macro without threads, under a global
-- limit below 2 ^ 32 with no more slots taken than there are, some further steps lead to a state in
-- which the macro counts no thread and the global slots in use are those of the other macros alone.
pub threads_drain :
    (m : Macro) (g : Globals) (p : Pool)
    → m.thread_count ≡ 0
    → g.active ≤ g.thread_limit
    → g.thread_limit < 2 ^ 32
    → Reach (at_rest m g) p
    → (q : Pool) × Reach p q × (q.macro.thread_count ≡ 0) × (q.globals.active ≡ p.others)
threads_drain m g p idle few narrow r =
    let d = drain_made p.made p p here (threads_bounded m g p idle few narrow r) refl in
    (
      d.last_pool,
      d.reached,
      d.counts.counted ∙ d.none_inside,
      omega (arith, d.counts.slots, d.none_made, d.none_inside, d.none_leaving, d.same_others),
    )
