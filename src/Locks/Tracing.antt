-- ===== src/Locks/Tracing.antt =====
-- The functions keep the order of the mutexes, and give back what they take.
use libmacro.Prelude.{
  ◌≡◌, ◌∙◌, ap, sym, refl, List, [], ◌∷◌, ◌++◌, Option, none, some, Bool, true, ◌&&◌, arith,
  if◌then◌else◌,
}
use libmacro.Locks.{
  Mutex, own, global, registry, Code, nothing, throws, blocks, within, seq, either, loop, catches,
  Event, acquire, release, block, Trace, same_mutex, may_acquire, holds_none, step,
}
use libmacro.Locks.Calls.{IsCall}

-- The mutexes held after some events
abbrev pub walk : List Mutex → List Event → Option (List Mutex)
walk h [] = some h
walk h (e ∷ es) = elim (step h e) [ none ↦ none | some k ↦ walk k es ]

abbrev pub then_walk : Option (List Mutex) → List Event → Option (List Mutex)
then_walk none es = none
then_walk (some k) es = walk k es

then_walk-append :
    (o : Option (List Mutex)) (es fs : List Event)
    → ((k : List Mutex) → walk k (es ++ fs) ≡ then_walk (walk k es) fs)
    → then_walk o (es ++ fs) ≡ then_walk (then_walk o es) fs
then_walk-append none es fs h = refl
then_walk-append (some k) es fs h = h k

pub walk_after :
    (h : List Mutex) (e : Event) (es : List Event) → walk h (e ∷ es) ≡ then_walk (step h e) es
walk_after h e es =
    elim (step h e) as (λ o. (elim o [ none ↦ none | some k ↦ walk k es ]) ≡ then_walk o es) [
      | none ↦ refl
      | some k ↦ refl
    ]

walk-append : (h : List Mutex) (es fs : List Event) → walk h (es ++ fs) ≡ then_walk (walk h es) fs
walk-append h [] fs = refl
walk-append h (e ∷ es) fs =
    walk_after h e (es ++ fs)
    ∙ then_walk-append (step h e) es fs (λ k. walk-append k es fs)
    ∙ ap (λ o. then_walk o fs) (sym (walk_after h e es))

-- The code keeps the order, whatever it does, from a place where some mutexes are held.
abbrev pub fits : List Mutex → Code → Bool
fits h nothing = true
fits h throws = true
fits h blocks = holds_none h
fits h (within x c) = may_acquire h x && fits (x ∷ h) c
fits h (seq c d) = fits h c && fits h d
fits h (either c d) = fits h c && fits h d
fits h (loop c) = fits h c
fits h (catches c) = fits h c

pub IsCall-fits : {c : Code} → IsCall c → fits [] c ≡ true
IsCall-fits (IsCall.locks this) = refl
IsCall-fits (IsCall.checks this) = refl
IsCall-fits (IsCall.interrupts this) = refl
IsCall-fits (IsCall.starts this) = refl
IsCall-fits (IsCall.clears this) = refl
IsCall-fits (IsCall.disables this) = refl
IsCall-fits (IsCall.resets this) = refl
IsCall-fits (IsCall.copies this) = refl
IsCall-fits IsCall.counts = refl
IsCall-fits IsCall.contexts = refl
IsCall-fits (IsCall.runs this d) = ground (arith, IsCall-fits d)
IsCall-fits IsCall.raises = refl
IsCall-fits (IsCall.chooses c d) = ground (arith, IsCall-fits c, IsCall-fits d)
IsCall-fits (IsCall.follows c d) = ground (arith, IsCall-fits c, IsCall-fits d)

same_mutex_refl : (x : Mutex) → same_mutex x x ≡ true
same_mutex_refl (own i) = ground arith
same_mutex_refl global = refl
same_mutex_refl registry = refl

both_true : (a b : Bool) → (a && b) ≡ true → (a ≡ true) × (b ≡ true)
both_true a b h = (ground arith, ground arith)

step-acquire :
    (h : List Mutex) (x : Mutex) → may_acquire h x ≡ true → step h (acquire x) ≡ some (x ∷ h)
step-acquire h x m = ap (λ b. if b then some (x ∷ h) else none) m

walk-release : (h : List Mutex) (x : Mutex) → walk (x ∷ h) (release x ∷ []) ≡ some h
walk-release h x =
    walk_after (x ∷ h) (release x) []
    ∙ ap (λ b. then_walk (if b then some h else none) []) (same_mutex_refl x)

walk-block : (h : List Mutex) → holds_none h ≡ true → walk h (block ∷ []) ≡ some h
walk-block [] n = refl
walk-block (x ∷ h) n = absurd (cc)

-- A run of such code, also one that ends by an exception, keeps the order and gives back exactly the
-- mutexes that it takes.
pub Trace-walk :
    {c : Code} {es : List Event} {b : Bool} (h : List Mutex)
    → fits h c ≡ true
    → Trace c es b
    → walk h es ≡ some h
Trace-walk h f Trace.nothing_done = refl
Trace-walk h f Trace.passed = refl
Trace-walk h f Trace.thrown = refl
Trace-walk h f Trace.blocked = walk-block h f
Trace-walk h f (Trace.locked {x} {c} {es} t) =
    let (may, inner) = both_true (may_acquire h x) (fits (x ∷ h) c) f in
    let given = release x ∷ [] in
    walk_after h (acquire x) (es ++ given)
    ∙ ap (λ o. then_walk o (es ++ given)) (step-acquire h x may)
    ∙ walk-append (x ∷ h) es given
    ∙ ap (λ o. then_walk o given) (Trace-walk (x ∷ h) inner t)
    ∙ walk-release h x
Trace-walk h f (Trace.both {c} {d} {es} {fs} t u) =
    let (left, right) = both_true (fits h c) (fits h d) f in
    walk-append h es fs ∙ ap (λ o. then_walk o fs) (Trace-walk h left t) ∙ Trace-walk h right u
Trace-walk h f (Trace.cut_short {c} {d} t) = Trace-walk h ((both_true (fits h c) (fits h d) f).0) t
Trace-walk h f (Trace.first {c} {d} t) = Trace-walk h ((both_true (fits h c) (fits h d) f).0) t
Trace-walk h f (Trace.second {c} {d} t) = Trace-walk h ((both_true (fits h c) (fits h d) f).1) t
Trace-walk h f (Trace.caught t) = Trace-walk h f t
Trace-walk h f Trace.no_round = refl
Trace-walk h f (Trace.round {c} {es} {fs} t u) =
    walk-append h es fs ∙ ap (λ o. then_walk o fs) (Trace-walk h f t) ∙ Trace-walk h f u
Trace-walk h f (Trace.broken t) = Trace-walk h f t
