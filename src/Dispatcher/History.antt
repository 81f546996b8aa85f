-- ===== src/Dispatcher/History.antt =====
-- The receivers of a dispatcher as a set without an order, told from what has been added and removed.
use libmacro.Prelude.{
  ℕ, ◌≡◌, ◌≢◌, ◌⊎◌, ◌↔◌, ◌∙◌, sym, ap, refl, List, [], ◌∷◌, Bool, Bool-cases, true, false, not,
  ◌==◌, ◌&&◌, ◌||◌, inl, inr, arith, has, ==_iff,
}
use mathlib.Core.Quot
use mathlib.Core.Quot.{Quot}
use libmacro.Dispatcher.{Dispatcher, new_dispatcher, add, remove, clear, dispatch}
use libmacro.Dispatcher.Receivers.{
  IsWellFormed, has-add, has-remove, add-IsWellFormed, remove-IsWellFormed, clear-IsWellFormed,
}
use libmacro.Dispatcher.Order.{SameMembers, Commutes, some_blocks, loop_answer, dispatch_unordered}

-- A call on the dispatcher that changes its receivers
pub data Registering : Type 0 where
  adds : ℕ → ℕ → Registering
  removes : ℕ → Registering
  clears : Registering

-- A new dispatcher after some calls, the last of which stands first
abbrev pub replay : ℕ → List Registering → Dispatcher
replay context [] = new_dispatcher context
replay context (adds signal receiver ∷ cs) = add signal receiver (replay context cs)
replay context (removes receiver ∷ cs) = remove receiver (replay context cs)
replay context (clears ∷ cs) = clear (replay context cs)

-- Whether the last call that is about a receiver is its addition; the removal of null is about none.
abbrev pub last_added : List Registering → ℕ → Bool
last_added [] r = false
last_added (adds signal q ∷ cs) r = q == r || last_added cs r
last_added (removes q ∷ cs) r = (q == 0 || not (q == r)) && last_added cs r
last_added (clears ∷ cs) r = false

pub replay-IsWellFormed : (context : ℕ) (cs : List Registering) → IsWellFormed (replay context cs)
replay-IsWellFormed context [] = λ r. omega arith
replay-IsWellFormed context (adds signal q ∷ cs) =
    add-IsWellFormed signal q (replay context cs) (replay-IsWellFormed context cs)
replay-IsWellFormed context (removes q ∷ cs) =
    remove-IsWellFormed q (replay context cs) (replay-IsWellFormed context cs)
replay-IsWellFormed context (clears ∷ cs) = clear-IsWellFormed (replay context cs)

has-replay :
    (context r : ℕ) (cs : List Registering) → has r (replay context cs).receivers ≡ last_added cs r
unfolding clear
has-replay context r [] = refl
has-replay context r (adds signal q ∷ cs) =
    has-add signal q r (replay context cs) ∙ ap (λ b. q == r || b) (has-replay context r cs)
has-replay context r (removes q ∷ cs) =
    has-remove q r (replay context cs) ∙ ground (arith, has-replay context r cs)
has-replay context r (clears ∷ cs) = refl

-- Dispatchers that list each receiver once, without the order of the list and the context
abbrev Proper : Type 0
Proper = (d : Dispatcher) × IsWellFormed d

abbrev pub Receivers : Type 0
Receivers = Quot {α = Proper} (λ d e. SameMembers (d.0).receivers (e.0).receivers)

abbrev pub receivers_after : ℕ → List Registering → Receivers
receivers_after context cs = Quot.mk (replay context cs, replay-IsWellFormed context cs)

blocking_member :
    (blocks : ℕ → Bool) (rs : List ℕ)
    → some_blocks blocks rs ≡ true
    → (r : ℕ) × (r ≢ 0) × (has r rs ≡ true) × (blocks r ≡ true)
blocking_member blocks [] h = absurd (cc)
blocking_member blocks (q ∷ rs) h = elim (Bool-cases (not (q == 0) && blocks q)) [
  | inl now ↦ (q, ground arith, ground arith, ground arith)
  | inr later ↦
      let (r, real, member, blocks_it) = blocking_member blocks rs (ground arith) in
      (r, real, ground arith, blocks_it)
]

member_blocks :
    (blocks : ℕ → Bool) (r : ℕ) (rs : List ℕ)
    → r ≢ 0
    → has r rs ≡ true
    → blocks r ≡ true
    → some_blocks blocks rs ≡ true
member_blocks blocks r [] real member b = absurd (cc)
member_blocks blocks r (q ∷ rs) real member b = elim (Bool-cases (q == r)) [
  | inl same ↦
      let e = (==_iff q r).0 same in
      let now : blocks q ≡ true = ap blocks e ∙ b in ground (arith, now, e, real)
  | inr other ↦
      let found : has r rs ≡ true = ground arith in
      let later = member_blocks blocks r rs real found b in ground (arith, later)
]

module _ {ℓ} {S : Type ℓ} (receive : ℕ → ℕ → ℕ → S → Bool × S) (signal mods : ℕ) (blocks : ℕ → Bool)
    (answers : (r : ℕ) (s : S) → (receive r signal mods s).0 ≡ blocks r) where
  -- If whether a receiver blocks does not depend on the state, the calls of receivers commute,
  -- and two series of additions, removals and clearings of a new dispatcher agree on which
  -- receivers were last added, then the dispatchers are the same set of receivers; a dispatch
  -- blocks exactly if some receiver that was last added and is not null blocks, is answered by
  -- both dispatchers alike, and leaves the same state with both unless it blocks.
  pub dispatch_history :
      (context : ℕ) (cs ds : List Registering) (s : S)
      → Commutes receive signal mods
      → ((r : ℕ) → last_added cs r ≡ last_added ds r)
      → (receivers_after context cs ≡ receivers_after context ds)
        × (((dispatch receive (replay context cs) signal mods s).0 ≡ true)
            ↔ ((r : ℕ) × (r ≢ 0) × (last_added cs r ≡ true) × (blocks r ≡ true)))
        × ((dispatch receive (replay context cs) signal mods s).0
            ≡ (dispatch receive (replay context ds) signal mods s).0)
        × (((dispatch receive (replay context cs) signal mods s).0 ≡ true)
            ⊎ (dispatch receive (replay context cs) signal mods s
                ≡ dispatch receive (replay context ds) signal mods s))
  unfolding dispatch
  dispatch_history context cs ds s commutes agree =
      let c = replay context cs in
      let d = replay context ds in
      let same : SameMembers c.receivers d.receivers =
        λ r. has-replay context r cs ∙ agree r ∙ sym (has-replay context r ds) in
      let (answer, rest) =
        dispatch_unordered receive signal mods blocks answers c d s commutes
          (replay-IsWellFormed context cs) (replay-IsWellFormed context ds) same in
      let told = loop_answer receive signal mods blocks answers c.receivers s in
      (
        Quot.sound same,
        (
          λ h.
              let (r, real, member, b) = blocking_member blocks c.receivers (sym told ∙ h) in
              (r, real, sym (has-replay context r cs) ∙ member, b),
          λ p.
              let (r, real, member, b) = p in
              told ∙ member_blocks blocks r c.receivers real (has-replay context r cs ∙ member) b,
        ),
        answer,
        rest,
      )
