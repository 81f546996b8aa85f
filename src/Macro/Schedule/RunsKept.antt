-- ===== src/Macro/Schedule/RunsKept.antt =====
-- No run is lost where nothing disturbs the macro.
use libmacro.Prelude.{
  ◌≤◌, ◌≡◌, ◌≢◌, ◌∙◌, ◌⊎◌, inl, inr, ap, List, [], ◌∷◌, ◌++◌, true, false, arith, Bool-cases,
}
use libmacro.Types.{continue}
use libmacro.Macro.State.{Macro, Globals}
use libmacro.Macro.Dispatching.{is_empty}
use libmacro.Macro.Threads.{start}
use libmacro.Macro.Schedule.{Place, Shared, System, Move, after_start, initial, fresh, completing}
use libmacro.Macro.Schedule.Places.{total, total_one, total-append, total-split, is_delivering}
use libmacro.Macro.Schedule.Runs.{
  Undisturbed, at_rest, moves, begins, will_look, IsServed, Move-IsServing,
}

start_serves :
    (g : Globals) (m : Macro)
    → m.interruptor ≡ continue
    → let n = start true g m in
      (n.macro.interruptor ≡ continue)
      × (n.macro.signals ≡ m.signals)
      × ((n.spawned ≡ true) ⊎ (n.macro.queued ≤ m.queued))
unfolding start
start_serves g m going = (ground (arith, going), ground arith, ground (arith, going))

start-IsServed : (s : System) → IsServed s → IsServed (after_start true s)
start-IsServed s v =
    let n = start true s.shared.globals s.shared.macro in
    let (going, signals, looks) = start_serves s.shared.globals s.shared.macro v.going in
    record {
      going = going;
      some_signals = ap is_empty signals ∙ v.some_signals;
      served = elim (Bool-cases n.spawned) [
        | inl made ↦ rw made (inr (omega (arith, total-append will_look s.places (fresh ∷ []))))
        | inr not_made ↦
            let fewer : n.macro.queued ≤ s.shared.macro.queued = ground (arith, looks) in
            rw not_made (elim v.served [
              | inl none_queued ↦ inl (omega (arith, fewer, none_queued))
              | inr looking_on ↦ inr looking_on
            ])
      ];
    }

Move-IsServed :
    {p q : Place} {shared : Shared} (t : System) (before after : List Place)
    → t.places ≡ before ++ p ∷ after
    → Move t.shared p shared q
    → (is_delivering p ≡ 0) ⊎ (q ≢ completing)
    → IsServed t
    → IsServed (record t { shared = shared; places = before ++ q ∷ after })
Move-IsServed {p = p} {q = q} t before after e m d v =
    let w = Move-IsServing m v.going v.some_signals d in
    let old = ap (total will_look) e ∙ total_one will_look before after p in
    let new = total_one will_look before after q in
    record {
      going = w.same_interruptor;
      some_signals = ap is_empty w.same_signals ∙ v.some_signals;
      served = elim v.served [
        | inl none_queued ↦ inl (omega (arith, w.no_more, none_queued))
        | inr looking_on ↦ elim w.looks [
          | inl none_now ↦ inl none_now
          | inr more ↦ inr (omega (arith, old, new, more, looking_on))
        ]
      ];
    }

Undisturbed-IsServed : {s t : System} → Undisturbed s t → IsServed s → IsServed t
Undisturbed-IsServed at_rest v = v
Undisturbed-IsServed (moves {t} before after u e m d) v =
    Move-IsServed t before after e m d (Undisturbed-IsServed u v)
Undisturbed-IsServed (begins {t} u) v = start-IsServed t (Undisturbed-IsServed u v)

-- From a macro with signals in CONTINUE, without threads and queued runs, every system reached by
-- starts that can make a thread and by moves of the threads, none of which throws from a signal, in
-- any order, is in CONTINUE, and either no run is queued or a thread is to look at the queue again.
pub no_run_lost :
    (m : Macro) (g : Globals) (s : System)
    → m.interruptor ≡ continue
    → is_empty m.signals ≡ false
    → m.queued ≡ 0
    → Undisturbed (initial m g) s
    → (s.shared.macro.interruptor ≡ continue)
      × ((s.shared.macro.queued ≡ 0)
          ⊎ ((before : List Place) × (p : Place) × (after : List Place) × (s.places
                ≡ before ++ p ∷ after)
              × (will_look p ≢ 0)))
no_run_lost m g s going some none_queued u =
    let v =
      Undisturbed-IsServed u
        (record { going = going; some_signals = some; served = inl none_queued }) in
    (
      v.going,
      elim v.served [
        | inl none_left ↦ inl none_left
        | inr looking_on ↦ elim (total-split will_look s.places) [
          | inl none_looks ↦ absurd (omega (arith, none_looks, looking_on))
          | inr found ↦ inr found
        ]
      ],
    )
