-- ===== src/Registry/Macros.antt =====
-- src/macro_registry.cpp: the macros by name. The order of the table stands for the order in which
-- the `std::unordered_map` is walked.
use libmacro.Prelude.{
  ℕ, ◌≡◌, ap, fun_ext, refl, List, [], ◌∷◌, none, some, Bool, false, not, ◌&&◌, ◌||◌, ◌==◌,
  if◌then◌else◌, arith, has, count, inl, inr, Bool-cases,
}
use libmacro.Text.{Text, text_eq}
use libmacro.Text.Laws.{text_eq_same}
use libmacro.Error.{Result, ok, crash, ◌>>=◌}
use libmacro.Assoc.{lookup, insert, erase, lookup-insert, lookup-erase}

abbrev pub Table : Type 0
Table = List (Text × ℕ)

unfoldable pub map : Text → ℕ → Table → Table
map name macro t = insert text_eq name macro t

unfoldable pub unmap : Text → Table → Table
unmap name t = erase text_eq name t

-- 0 where there is no such name
unfoldable pub find : Text → Table → ℕ
find name t = elim (lookup text_eq name t) [ none ↦ 0 | some macro ↦ macro ]

abbrev pub clear : Table → Table
clear t = []

-- The names form a map: the last macro mapped to a name is found under it until the name is
-- unmapped, and no operation touches another name.
pub find-map-unmap :
    (name other : Text) (macro : ℕ) (t : Table)
    → (find other (map name macro t) ≡ (if text_eq name other then macro else find other t))
      × (find other (unmap name t) ≡ (if text_eq name other then 0 else find other t))
      × (find other (clear t) ≡ 0)
unfolding find map unmap lookup
find-map-unmap name other macro t =
    let m = lookup-insert text_eq text_eq_same name other macro t in
    let u = lookup-erase text_eq text_eq_same name other t in
    (ground (arith, m), ground (arith, u), refl)

-- `interrupt` of one macro is a parameter: what it does to the macro at an address.
module _ {S : Type 0} (interrupt_one : ℕ → S → Result S) where
  -- The loop of `interrupt`
  interrupt_loop : Table → List ℕ → S → Result S
  interrupt_loop [] seen s = ok s
  interrupt_loop ((name, macro) ∷ t) seen s =
      let skipped = interrupt_loop t seen s in
      if has macro seen
      then skipped
      else if macro == 0
      then crash
      else do s' ← interrupt_one macro s; interrupt_loop t (macro ∷ seen) s'

  unfoldable pub interrupt_macros : Table → S → Result S
  unfolding interrupt_loop
  interrupt_macros t s = interrupt_loop t [] s

  -- The interrupts of some macros in turn
  abbrev pub in_turn : List ℕ → S → Result S
  in_turn [] s = ok s
  in_turn (macro ∷ macros) s =
      if macro == 0 then crash else interrupt_one macro s >>= λ s'. in_turn macros s'

abbrev pub named : ℕ → Table → Bool
named macro [] = false
named macro ((name, m) ∷ t) = m == macro || named macro t

-- The macros of a table that are not in a list yet, each once.
abbrev distinct : Table → List ℕ → List ℕ
distinct [] seen = []
distinct ((name, macro) ∷ t) seen =
    if has macro seen then distinct t seen else macro ∷ distinct t (macro ∷ seen)

has-distinct :
    (a : ℕ) (t : Table) (seen : List ℕ) → has a (distinct t seen) ≡ (named a t && not (has a seen))
has-distinct a [] seen = refl
has-distinct a ((name, macro) ∷ t) seen =
    ground (arith, has-distinct a t seen, has-distinct a t (macro ∷ seen))

count-distinct :
    (a : ℕ) (t : Table) (seen : List ℕ)
    → count a (distinct t seen) ≡ (if named a t && not (has a seen) then 1 else 0)
count-distinct a [] seen = refl
count-distinct a ((name, macro) ∷ t) seen =
    ground (arith, count-distinct a t seen, count-distinct a t (macro ∷ seen))

module _ {S : Type 0} (interrupt_one : ℕ → S → Result S) where
  interrupt_loop-distinct :
      (t : Table) (seen : List ℕ) (s : S)
      → interrupt_loop interrupt_one t seen s ≡ in_turn interrupt_one (distinct t seen) s
  unfolding interrupt_loop
  interrupt_loop-distinct [] seen s = refl
  interrupt_loop-distinct ((name, macro) ∷ t) seen s = elim (Bool-cases (has macro seen)) [
    | inl old ↦ simp old (interrupt_loop-distinct t seen s)
    | inr new ↦
        let rest = fun_ext (λ s'. interrupt_loop-distinct t (macro ∷ seen) s') in
        simp new (ap (λ f. if macro == 0 then crash else interrupt_one macro s >>= f) rest)
  ]

  -- For any interrupt of one macro, an interrupt of the registry is these interrupts, in turn, of
  -- exactly the macros that have a name, each once however many names it has; it fails where one
  -- of them does, and at a null macro that has been mapped.
  pub interrupt_macros_lem :
      (t : Table) (s : S)
      → (macros : List ℕ) × (interrupt_macros interrupt_one t s ≡ in_turn interrupt_one macros s)
        × ((a : ℕ) → count a macros ≡ (if named a t then 1 else 0))
  unfolding interrupt_macros
  interrupt_macros_lem t s =
      (distinct t [], interrupt_loop-distinct t [] s, λ a. ground (arith, count-distinct a t []))
