-- ===== src/Locks/Progress.antt =====
-- No deadlock on the mutexes.
use libmacro.Prelude.{
  ◌≡◌, ◌∙◌, ◌⊎◌, inl, inr, ap, subst, refl, List, [], ◌∷◌, ◌++◌, some, true, false, ◌||◌, All,
}
use libmacro.Locks.{Mutex, own, global, registry, Event, acquire, release, block, may_acquire}
use libmacro.Locks.Tracing.{walk}
use libmacro.Locks.Threads.{Thread, holds, is_held, LockTurn, takes, gives, AllTurns, IsStarted}
use libmacro.Locks.Ordering.{
  IsOrdered, acquire_next, AllTurns-IsOrdered, IsStarted-IsOrdered, All-map,
}

-- The thread has ended, or waits for other threads, and holds no mutex.
abbrev pub IsAway : Thread → Type 0
IsAway t = (t.held ≡ []) × ((t.rest ≡ []) ⊎ ((es : List Event) × (t.rest ≡ block ∷ es)))

abbrev Gives : Thread → Type 0
Gives t = (x : Mutex) × (es : List Event) × (t.rest ≡ release x ∷ es)

abbrev Wants : Mutex → Thread → Type 0
Wants x t = (may_acquire t.held x ≡ true) × ((es : List Event) × (t.rest ≡ acquire x ∷ es))

abbrev WantsSome : Thread → Type 0
WantsSome t = (x : Mutex) × Wants x t

abbrev IsIdle : Thread → Type 0
IsIdle t = IsAway t ⊎ WantsSome t

-- The thread holds no mutex.
abbrev IsCalm : Thread → Type 0
IsCalm t = (t.held ≡ []) × IsIdle t

sort_next :
    (h : List Mutex) (es : List Event)
    → walk h es ≡ some []
    → IsIdle (record { held = h; rest = es }) ⊎ Gives (record { held = h; rest = es })
sort_next h (release x ∷ es) w = inr (x, es, refl)
sort_next h (acquire x ∷ es) w = inl (inr (x, ((acquire_next h x es w).0, (es, refl))))
sort_next [] (block ∷ es) w = inl (inl (refl, inr (es, refl)))
sort_next (y ∷ h) (block ∷ es) w = absurd (cc)
sort_next [] [] w = inl (inl (refl, inl refl))
sort_next (y ∷ h) [] w = absurd (cc)

-- Where a mutex other than the global one may be taken, none is held.
none_held : (h : List Mutex) (x : Mutex) → may_acquire h x ≡ true → (x ≡ global) ⊎ (h ≡ [])
none_held [] x m = inr refl
none_held (own i ∷ []) (own j) m = absurd (cc)
none_held (own i ∷ []) global m = inl refl
none_held (own i ∷ []) registry m = absurd (cc)
none_held (own i ∷ y ∷ h) x m = absurd (cc)
none_held (global ∷ h) x m = absurd (cc)
none_held (registry ∷ h) x m = absurd (cc)

sort_wanted : (t : Thread) → IsIdle t → IsCalm t ⊎ Wants global t
sort_wanted t (inl away) = inl (away.0, inl away)
sort_wanted t (inr (x, (may, next))) = elim (none_held t.held x may) [
  | inl e ↦ inr (subst (λ y. Wants y t) e (may, next))
  | inr e ↦ inl (e, inr (x, (may, next)))
]

global_not_held : (h : List Mutex) (x : Mutex) → may_acquire h x ≡ true → holds global h ≡ false
global_not_held [] x m = refl
global_not_held (own i ∷ []) x m = refl
global_not_held (own i ∷ y ∷ h) x m = absurd (cc)
global_not_held (global ∷ h) x m = absurd (cc)
global_not_held (registry ∷ h) x m = absurd (cc)

idle-not_global : (t : Thread) → IsIdle t → holds global t.held ≡ false
idle-not_global t (inl away) = ap (holds global) (away.0)
idle-not_global t (inr (x, (may, next))) = global_not_held t.held x may

held_by_none :
    (x : Mutex) (ts : List Thread) → All (λ t. holds x t.held ≡ false) ts → is_held x ts ≡ false
held_by_none x [] v = refl
held_by_none x (t ∷ ts) (p, ps) = ap (λ b. b || is_held x ts) p ∙ held_by_none x ts ps

-- Either all threads are of one kind, or there is one of the other.
sort_out :
    (P Q : Thread → Type 0) (ts : List Thread)
    → All (λ t. P t ⊎ Q t) ts
    → All P ts
      ⊎ ((before : List Thread) × (t : Thread) × (after : List Thread) × (ts ≡ before ++ t ∷ after)
          × Q t)
sort_out P Q [] v = inl tt
sort_out P Q (t ∷ ts) (inr q, v) = inr ([], t, ts, refl, q)
sort_out P Q (t ∷ ts) (inl p, v) = elim (sort_out P Q ts v) [
  | inl ps ↦ inl (p, ps)
  | inr (before, u, after, e, q) ↦ inr (t ∷ before, u, after, ap (λ us. t ∷ us) e, q)
]

progress :
    (ts : List Thread) → All IsOrdered ts → All IsAway ts ⊎ ((us : List Thread) × LockTurn ts us)
progress ts v = elim (sort_out IsIdle Gives ts (All-map ts (λ t. sort_next t.held t.rest) v)) [
  | inr (before, t, after, e, (x, es, next)) ↦ inr (_, gives t x es before after e next)
  | inl idle ↦ elim (sort_out IsCalm (Wants global) ts (All-map ts sort_wanted idle)) [
    | inr (before, t, after, e, (may, (es, next))) ↦ inr (
      _,
      takes t global es before after e next
          (held_by_none global ts (All-map ts idle-not_global idle)),
    )
    | inl calm ↦ elim (sort_out IsAway WantsSome ts (All-map ts (λ t c. c.1) calm)) [
      | inl away ↦ inl away
      | inr (before, t, after, e, (x, (may, (es, next)))) ↦ inr (
        _,
        takes t x es before after e next
            (held_by_none x ts (All-map ts (λ t c. ap (holds x) (c.0)) calm)),
      )
    ]
  ]
]

-- From threads that each hold no mutex and make calls of the functions of macros and contexts, also
-- by the signals that `run` sends and with exceptions anywhere, whatever turns they take on the
-- mutexes, either all have ended or wait for other threads without a mutex, or one of them can take
-- a mutex that no thread holds, or give one back.
pub no_deadlock :
    (ts us : List Thread)
    → All IsStarted ts
    → AllTurns ts us
    → All IsAway us ⊎ ((vs : List Thread) × LockTurn us vs)
no_deadlock ts us v turns =
    progress us (AllTurns-IsOrdered turns (All-map ts IsStarted-IsOrdered v))
