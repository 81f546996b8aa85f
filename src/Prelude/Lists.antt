-- ===== src/Prelude/Lists.antt =====
-- Lists measured by native numbers, sets of numbers as lists, and predicates over lists.
use Prim.Native.Nat.{ℕ, suc, ◌+◌, ◌≤◌, ◌<◌}
use mathlib.Core.Path.{◌≡◌, refl}
use mathlib.Core.Bool.{Bool, true, false, not, ◌&&◌, ◌||◌}
use mathlib.Core.List.{List, [], ◌∷◌, ◌++◌}
use native.Mathlib.Omega.{arith}
use libmacro.Prelude.Tests.{◌==◌, if◌then◌else◌}

abbrev pub All {ℓ κ} : {A : Type ℓ} → (A → Type κ) → List A → Type κ
All P [] = Unit
All P (x ∷ xs) = P x × All P xs

-- A predicate over a list holds of a member, and of the list with another that has it in its place.
pub All-replace {ℓ κ} :
    {A : Type ℓ} {P : A → Type κ} (before after : List A) (a : A)
    → All P (before ++ a ∷ after)
    → P a × ((b : A) → P b → All P (before ++ b ∷ after))
All-replace [] after a (p, ps) = (p, λ b q. (q, ps))
All-replace (c ∷ before) after a (p, ps) =
    let (q, put) = All-replace before after a ps in (q, λ b r. (p, put b r))

pub All-append {ℓ κ} :
    {A : Type ℓ} (P : A → Type κ) (xs ys : List A) → All P xs → All P ys → All P (xs ++ ys)
All-append P [] ys ps qs = qs
All-append P (x ∷ xs) ys (p, ps) qs = (p, All-append P xs ys ps qs)

pub All-map {ℓ κ μ} :
    {A : Type ℓ} {P : A → Type κ} {Q : A → Type μ} (xs : List A)
    → ((a : A) → P a → Q a)
    → All P xs
    → All Q xs
All-map [] f ps = tt
All-map (x ∷ xs) f (p, ps) = (f x p, All-map xs f ps)

module _ {ℓ} {A : Type ℓ} where
  abbrev pub length : List A → ℕ
  length [] = 0
  length (x ∷ xs) = suc (length xs)

  pub length-append : (xs ys : List A) → length (xs ++ ys) ≡ length xs + length ys
  length-append [] ys = omega arith
  length-append (x ∷ xs) ys = omega (arith, length-append xs ys)

-- A set of numbers (of pointers) is a list; membership is a test.
abbrev pub has : ℕ → List ℕ → Bool
has a [] = false
has a (x ∷ xs) = x == a || has a xs

pub members-All : (xs : List ℕ) → All (λ a. has a xs ≡ true) xs
members-All [] = tt
members-All (x ∷ xs) = (ground arith, All-map xs (λ a h. ground arith) (members-All xs))

-- How often a number stands in a list.
abbrev pub count : ℕ → List ℕ → ℕ
count a [] = 0
count a (x ∷ xs) = (if x == a then 1 else 0) + count a xs

pub has-append : (a : ℕ) (xs ys : List ℕ) → has a (xs ++ ys) ≡ (has a xs || has a ys)
has-append a [] ys = refl
has-append a (x ∷ xs) ys = ground (arith, has-append a xs ys)

pub count-append : (a : ℕ) (xs ys : List ℕ) → count a (xs ++ ys) ≡ count a xs + count a ys
count-append a [] ys = omega arith
count-append a (x ∷ xs) ys = ground (arith, count-append a xs ys)

pub count-eq-zero : (a : ℕ) (xs : List ℕ) → has a xs ≡ false → count a xs ≡ 0
count-eq-zero a [] h = refl
count-eq-zero a (x ∷ xs) h = ground (arith, count-eq-zero a xs)

-- The set without one number.
abbrev pub without : ℕ → List ℕ → List ℕ
without a [] = []
without a (x ∷ xs) = if x == a then without a xs else x ∷ without a xs

pub has-without : (a b : ℕ) (xs : List ℕ) → has b (without a xs) ≡ (not (a == b) && has b xs)
has-without a b [] = ground arith
has-without a b (x ∷ xs) = ground (arith, has-without a b xs)

pub count-without : (a b : ℕ) (xs : List ℕ) → count b (without a xs) ≤ count b xs
count-without a b [] = omega arith
count-without a b (x ∷ xs) = ground (arith, count-without a b xs)

-- A list that stands for a set names nothing twice.
abbrev pub IsSetList : List ℕ → Type 0
IsSetList xs = (a : ℕ) → count a xs ≤ 1

pub length-without : (a : ℕ) (xs : List ℕ) → length (without a xs) + count a xs ≡ length xs
length-without a [] = omega arith
length-without a (x ∷ xs) = ground (arith, length-without a xs)

pub count_pos : (a : ℕ) (xs : List ℕ) → has a xs ≡ true → 0 < count a xs
count_pos a [] h = cc
count_pos a (x ∷ xs) h = ground (arith, count_pos a xs)
