-- ===== src/Locks/Ordering.antt =====
-- The turns of threads keep the order of the mutexes in each.
use libmacro.Prelude.{
  ◌≡◌, ◌∙◌, inl, inr, ap, sym, subst, refl, List, [], ◌∷◌, Option, none, some, Bool, Bool-cases,
  true, if◌then◌else◌, All, All-replace,
}
use libmacro.Locks.{Mutex, Event, acquire, release, block, same_mutex, may_acquire}
use libmacro.Locks.Tracing.{walk, then_walk, walk_after, IsCall-fits, Trace-walk}
use libmacro.Locks.Threads.{
  Thread, give_back, takes, gives, AnyTurn, locking, goes_on, AllTurns, none_yet, one_more,
  IsStarted,
}

-- The thread keeps the order of the mutexes to its end, where it holds none.
abbrev pub IsOrdered : Thread → Type 0
IsOrdered t = walk t.held t.rest ≡ some []

pub acquire_next :
    (h : List Mutex) (x : Mutex) (es : List Event)
    → walk h (acquire x ∷ es) ≡ some []
    → (may_acquire h x ≡ true) × (walk (x ∷ h) es ≡ some [])
acquire_next h x es w =
    let rest : Bool → Option (List Mutex) = λ b. then_walk (if b then some (x ∷ h) else none) es in
    let now = sym (walk_after h (acquire x) es) ∙ w in
    elim (Bool-cases (may_acquire h x)) [
      | inl may ↦ (may, ap rest (sym may) ∙ now)
      | inr not_may ↦ absurd (cc (ap rest (sym not_may) ∙ now))
    ]

release_next :
    (h : List Mutex) (x : Mutex) (es : List Event)
    → walk h (release x ∷ es) ≡ some []
    → walk (give_back x h) es ≡ some []
release_next [] x es w = absurd (cc)
release_next (y ∷ h) x es w =
    let rest : Bool → Option (List Mutex) = λ b. then_walk (if b then some h else none) es in
    let now = sym (walk_after (y ∷ h) (release x) es) ∙ w in
    elim (Bool-cases (same_mutex y x)) [
      | inl same ↦
          ap (λ b. walk (if b then h else y ∷ give_back x h) es) same ∙ ap rest (sym same) ∙ now
      | inr other ↦ absurd (cc (ap rest (sym other) ∙ now))
    ]

block_next :
    (h : List Mutex) (es : List Event)
    → walk h (block ∷ es) ≡ some []
    → (h ≡ []) × (walk h es ≡ some [])
block_next [] es w = (refl, w)
block_next (x ∷ h) es w = absurd (cc)

AnyTurn-IsOrdered : {ts us : List Thread} → AnyTurn ts us → All IsOrdered ts → All IsOrdered us
AnyTurn-IsOrdered (locking (takes t x es before after e next free)) v =
    let (w, put) = All-replace before after t (subst (All IsOrdered) e v) in
    put _ ((acquire_next t.held x es (sym (ap (walk t.held) next) ∙ w)).1)
AnyTurn-IsOrdered (locking (gives t x es before after e next)) v =
    let (w, put) = All-replace before after t (subst (All IsOrdered) e v) in
    put _ (release_next t.held x es (sym (ap (walk t.held) next) ∙ w))
AnyTurn-IsOrdered (goes_on t es before after e next) v =
    let (w, put) = All-replace before after t (subst (All IsOrdered) e v) in
    put _ ((block_next t.held es (sym (ap (walk t.held) next) ∙ w)).1)

pub AllTurns-IsOrdered :
    {ts us : List Thread} → AllTurns ts us → All IsOrdered ts → All IsOrdered us
AllTurns-IsOrdered none_yet v = v
AllTurns-IsOrdered (one_more r k) v = AnyTurn-IsOrdered k (AllTurns-IsOrdered r v)

pub IsStarted-IsOrdered : (t : Thread) → IsStarted t → IsOrdered t
IsStarted-IsOrdered t (c, b, call, none_held, trace) =
    ap (λ h. walk h t.rest) none_held ∙ Trace-walk [] (IsCall-fits call) trace

pub All-map :
    {P Q : Thread → Type 0} (ts : List Thread) → ((t : Thread) → P t → Q t) → All P ts → All Q ts
All-map [] f v = tt
All-map (t ∷ ts) f (p, ps) = (f t p, All-map ts f ps)
