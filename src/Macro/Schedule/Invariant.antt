-- ===== src/Macro/Schedule/Invariant.antt =====
-- What every interleaving keeps: the bounds of the limit and of the queue of a macro, and whose signals
-- are sent.
use libmacro.Prelude.{
  ℕ, ◌≡◌, ◌≢◌, sym, subst, refl, [], ◌∷◌, Bool, false, ◌==◌, ◌||◌, arith, All, All-replace,
  All-append, Bool-cases, inl, inr,
}
use libmacro.Types.{interrupt, continue}
use libmacro.Macro.State.{Macro, Globals}
use libmacro.Macro.Threads.{start}
use libmacro.Macro.Run.{at_least}
use libmacro.Macro.Pool.{with_active}
use libmacro.Macro.Setting.{Setting}
use libmacro.Macro.Setting.Bounds.{
  IsBounded, Keeps, start-Keeps, interrupt_locked-Keeps, dequeue-Keeps, dec_queued-Keeps,
  count-Keeps, IsGivenBy, setting_at,
}
use libmacro.Macro.Schedule.{
  Place, Shared, System, Move, Turn, turn, Call, Reach, here, turned, called, initial, after_start,
  macro_set, with_macro, fresh, delivering, sending,
}

-- All settings on the way to a system give signals of a kind, and thread limits that could be set.
abbrev pub IsGivenIn : {s t : System} → (ℕ → Type 0) → Reach s t → Type 0
IsGivenIn P here = Unit
IsGivenIn P (turned r h) = IsGivenIn P r
IsGivenIn P (called r (Call.sets k)) = IsGivenIn P r × IsGivenBy P k
IsGivenIn P (called r _) = IsGivenIn P r

-- The signal is of the kind, and not null.
abbrev pub IsSendable : (ℕ → Type 0) → ℕ → Type 0
IsSendable P a = P a × (a ≢ 0)

-- What a thread has left to send is of the kind.
abbrev IsGivenPlace : (ℕ → Type 0) → Place → Type 0
IsGivenPlace P (sending ss) = All P ss
IsGivenPlace P (delivering a ss) = IsSendable P a × All P ss
IsGivenPlace P _ = Unit

-- What the threads share is within the bounds, and the signals of the macro and those sent are of the
-- kind.
record IsKept (P : ℕ → Type 0) (limit : ℕ) (s : Shared) : Type 0 where
  same_limit : s.globals.thread_limit ≡ limit
  bounded : IsBounded limit s.macro
  given : All P s.macro.signals
  own : All (IsSendable P) s.sent

module _ (P : ℕ → Type 0) (limit : ℕ) where
  changed :
      {s : Shared} (n : Macro)
      → IsKept P limit s
      → Keeps limit s.macro n
      → IsKept P limit (with_macro n s)
  changed n v (bounded, same) = record {
    same_limit = v.same_limit;
    bounded = bounded;
    given = subst (All P) (sym same) v.given;
    own = v.own;
  }

  passed : (m : Macro) (a : ℕ) → (at_least m.interruptor interrupt || a == 0) ≡ false → a ≢ 0
  passed m a h = ground arith

  sent_own :
      {s : Shared} (a : ℕ)
      → IsKept P limit s
      → IsSendable P a
      → IsKept P limit (record s { sent = a ∷ s.sent })
  sent_own a v p = record {
    same_limit = v.same_limit;
    bounded = v.bounded;
    given = v.given;
    own = (p, v.own);
  }

  released :
      {s : Shared} {k : ℕ}
      → IsKept P limit s
      → IsKept P limit (record s { globals = with_active k s.globals })
  released v = record {
    same_limit = v.same_limit;
    bounded = v.bounded;
    given = v.given;
    own = v.own;
  }

  Move-IsKept :
      {here there : Place} {s t : Shared}
      → Move s here t there
      → IsKept P limit s
      → IsGivenPlace P here
      → IsKept P limit t × IsGivenPlace P there
  Move-IsKept Move.enter v o = (changed _ v (count-Keeps v.bounded), tt)
  Move-IsKept (Move.preamble_interrupted h) v o = (v, tt)
  Move-IsKept (Move.preamble_free h) v o = (v, tt)
  Move-IsKept (Move.no_signals h) v o = (v, tt)
  Move-IsKept (Move.some_signals h) v o = (v, tt)
  Move-IsKept (Move.pauses h) v o = (v, tt)
  Move-IsKept (Move.goes_on h) v o = (v, tt)
  Move-IsKept (Move.resumes h) v o = (v, tt)
  Move-IsKept (Move.loop_interrupted h) v o = (v, tt)
  Move-IsKept (Move.loop_free h) v o = (v, tt)
  Move-IsKept {s = s} Move.consume v o =
      (changed _ v (interrupt_locked-Keeps continue s.macro v.bounded), tt)
  Move-IsKept (Move.stops h) v o = (v, tt)
  Move-IsKept (Move.decides h) v o = (v, tt)
  Move-IsKept (Move.is_idle h) v o = (v, tt)
  Move-IsKept (Move.is_busy h) v o = (v, tt)
  Move-IsKept (Move.leaves h) v o = (v, tt)
  Move-IsKept {s = s} (Move.stays h) v o = (v, v.given)
  Move-IsKept {s = s} Move.takes v o =
      (changed _ v (dec_queued-Keeps s.globals s.macro v.same_limit v.bounded), v.given)
  Move-IsKept (Move.breaks h) v o = (v, tt)
  Move-IsKept (Move.skips h n) v (p, o) = (v, o)
  Move-IsKept {s = s} (Move.passes {a} h) v (p, o) = (v, ((p, passed s.macro a h), o))
  Move-IsKept (Move.sends {a}) v (p, o) = (sent_own a v p, o)
  Move-IsKept (Move.throws {a}) v (p, o) = (sent_own a v p, tt)
  Move-IsKept Move.all_sent v o = (v, tt)
  Move-IsKept Move.complete v o = (changed _ v (count-Keeps v.bounded), tt)
  Move-IsKept Move.release v o = (released v, tt)

  abbrev IsKeptSystem : System → Type 0
  IsKeptSystem s = IsKept P limit s.shared × All (IsGivenPlace P) s.places

  Turn-IsKept : {s t : System} → Turn s t → IsKeptSystem s → IsKeptSystem t
  Turn-IsKept (turn {here} {there} before after e move) (v, ps) =
      let (p, put) = All-replace before after here (subst (All (IsGivenPlace P)) e ps) in
      let (w, q) = Move-IsKept move v p in (w, put there q)

  start-IsKept :
      (available : Bool) (s : System) → IsKeptSystem s → IsKeptSystem (after_start available s)
  start-IsKept available s (v, ps) =
      let n = start available s.shared.globals s.shared.macro in
      let ((bounded, same), same_limit) =
        start-Keeps available s.shared.globals s.shared.macro v.same_limit v.bounded in
      (
        record {
          same_limit = same_limit;
          bounded = bounded;
          given = subst (All P) (sym same) v.given;
          own = v.own;
        },
        elim (Bool-cases n.spawned) [
          | inl made ↦ rw made (All-append (IsGivenPlace P) s.places (fresh ∷ []) ps (tt, tt))
          | inr not_made ↦ rw not_made ps
        ],
      )

  set-IsKept :
      (s : System) {n : Macro} (k : Setting s.shared.globals.thread_limit s.shared.macro n)
      → IsGivenBy P k
      → IsKeptSystem s
      → IsKeptSystem (macro_set n s)
  set-IsKept s k o (v, ps) =
      let (bounded, given) = setting_at P limit v.same_limit k o v.bounded v.given in
      (record { same_limit = v.same_limit; bounded = bounded; given = given; own = v.own }, ps)

  Reach-IsKept : {s t : System} (r : Reach s t) → IsGivenIn P r → IsKeptSystem s → IsKeptSystem t
  Reach-IsKept here o v = v
  Reach-IsKept (turned r h) o v = Turn-IsKept h (Reach-IsKept r o v)
  Reach-IsKept (called {t} r (Call.starts available)) o v =
      start-IsKept available t (Reach-IsKept r o v)
  Reach-IsKept (called {t} r (Call.interrupts i)) o v =
      let (w, ps) = Reach-IsKept r o v in
      (changed _ w (interrupt_locked-Keeps i t.shared.macro w.bounded), ps)
  Reach-IsKept (called {t} r (Call.dequeues i)) o v =
      let (w, ps) = Reach-IsKept r o v in
      (changed _ w (dequeue-Keeps i t.shared.macro w.bounded), ps)
  Reach-IsKept (called {t} r (Call.sets k)) (o, given) v = set-IsKept t k given (Reach-IsKept r o v)
  Reach-IsKept (called r (Call.other_starts h)) o v =
      let (w, ps) = Reach-IsKept r o v in (released w, ps)
  Reach-IsKept (called r (Call.other_releases h)) o v =
      let (w, ps) = Reach-IsKept r o v in (released w, ps)

-- In every system reached by moves of the threads, starts, interrupts, what empties the queue, and
-- the steps of the setters and of the copies, in any order, also between the two halves of
-- `setThreadMax`, from a macro with a thread limit between 1 and the global one and a queue within
-- the global one, where every macro copied has such a thread limit, the macro is within these
-- bounds; and where the signals that it has at first and that settings and copies give to it are of
-- a kind, so are those that it has and those that were sent, of which none is null.
pub limits_kept :
    (P : ℕ → Type 0) (m : Macro) (g : Globals) (s : System) (r : Reach (initial m g) s)
    → IsBounded g.thread_limit m
    → All P m.signals
    → IsGivenIn P r
    → IsBounded g.thread_limit s.shared.macro
      × All P s.shared.macro.signals
      × All (IsSendable P) s.shared.sent
limits_kept P m g s r bounded given o =
    let (v, ps) =
      Reach-IsKept P g.thread_limit r o
        (record { same_limit = refl; bounded = bounded; given = given; own = tt }, tt) in
    (v.bounded, v.given, v.own)
