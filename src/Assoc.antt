-- ===== src/Assoc.antt =====
-- The standard maps that the program keeps, as association lists, for any comparison of keys:
-- `find`, `operator[]` with an assignment, and `erase`. Where the program walks a map, the order of
-- the list stands for the order that the library chose.
use libmacro.Prelude.{
  ◌≡◌, refl, List, [], ◌∷◌, Option, none, some, Bool, true, arith, if◌then◌else◌,
}

-- The comparison is an equivalence: equivalent keys compare alike with every key, on either side.
pub record SameKey {ℓ} {K : Type ℓ} (same : K → K → Bool) : Type ℓ where
  pub reflexive : (a : K) → same a a ≡ true
  pub left : (a b c : K) → same a b ≡ true → same a c ≡ same b c
  pub right : (a b c : K) → same a b ≡ true → same c a ≡ same c b

module _ {ℓ κ} {K : Type ℓ} {V : Type κ} (same : K → K → Bool) where
  unfoldable pub lookup : K → List (K × V) → Option V
  lookup k [] = none
  lookup k ((j, v) ∷ m) = if same j k then some v else lookup k m

  -- The key of an entry that is there stays as it was.
  unfoldable pub insert : K → V → List (K × V) → List (K × V)
  insert k v [] = (k, v) ∷ []
  insert k v ((j, w) ∷ m) = if same j k then (j, v) ∷ m else (j, w) ∷ insert k v m

  unfoldable pub erase : K → List (K × V) → List (K × V)
  erase k [] = []
  erase k ((j, v) ∷ m) = if same j k then erase k m else (j, v) ∷ erase k m

module _ {ℓ κ} {K : Type ℓ} {V : Type κ} (same : K → K → Bool) (laws : SameKey same) where
  pub lookup-insert :
      (k j : K) (v : V) (m : List (K × V))
      → lookup same j (insert same k v m) ≡ (if same k j then some v else lookup same j m)
  unfolding lookup insert
  lookup-insert k j v [] = refl
  lookup-insert k j v ((i, w) ∷ m) =
      ground (arith, laws.left i k j, laws.right k j i, lookup-insert k j v m)

  pub lookup-erase :
      (k j : K) (m : List (K × V))
      → lookup same j (erase same k m) ≡ (if same k j then none else lookup same j m)
  unfolding lookup erase
  lookup-erase k j [] = ground arith
  lookup-erase k j ((i, w) ∷ m) =
      ground (arith, laws.left i k j, laws.right k j i, lookup-erase k j m)

  -- Equivalent keys find the same entry.
  pub lookup_same :
      (k j : K) (m : List (K × V)) → same k j ≡ true → lookup same k m ≡ lookup same j m
  unfolding lookup
  lookup_same k j [] h = refl
  lookup_same k j ((i, w) ∷ m) h = ground (arith, laws.right k j i, lookup_same k j m)
