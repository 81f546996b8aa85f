-- ===== src/Text/Laws.antt =====
-- The comparisons that ignore case agree with the equality of the lower-case texts.
use libmacro.Prelude.{
  ℕ, ◌<◌, ◌≡◌, ◌↔◌, refl, sym, ◌∙◌, ap, [], ◌∷◌, some, true, false, arith, ◌⊎◌, inl, inr,
}
use libmacro.Assoc.{SameKey}
use libmacro.Text.{Text, IsText, tolower, lower, ci_loop, ci_equal, less_ci, same_ci, text_eq}

tolower_pos : (c : ℕ) → 0 < c → 0 < tolower c
unfolding tolower
tolower_pos c h = ground arith

pub text_eq_iff : (a b : Text) → (text_eq a b ≡ true) ↔ (a ≡ b)
unfolding text_eq
text_eq_iff [] [] = (λ h. refl, λ e. refl)
text_eq_iff [] (y ∷ ys) = (λ h. cc, λ e. cc)
text_eq_iff (x ∷ xs) [] = (λ h. cc, λ e. cc)
text_eq_iff (x ∷ xs) (y ∷ ys) =
    let rest = text_eq_iff xs ys in (λ h. ground (arith, rest), λ e. ground (arith, rest))

pub ci_loop-text_eq : (a b : Text) → IsText a → IsText b → ci_loop a b ≡ text_eq (lower a) (lower b)
unfolding ci_loop text_eq
ci_loop-text_eq [] [] p q = refl
ci_loop-text_eq [] (y ∷ ys) p q = let h = tolower_pos y q.0 in unfold tolower in ground arith
ci_loop-text_eq (x ∷ xs) [] p q = let h = tolower_pos x p.0 in unfold tolower in ground arith
ci_loop-text_eq (x ∷ xs) (y ∷ ys) p q = ground (arith, ci_loop-text_eq xs ys p.1 q.1)

pub same_ci-text_eq : (a b : Text) → same_ci a b ≡ text_eq (lower a) (lower b)
unfolding same_ci text_eq
same_ci-text_eq [] [] = refl
same_ci-text_eq [] (y ∷ ys) = refl
same_ci-text_eq (x ∷ xs) [] = refl
same_ci-text_eq (x ∷ xs) (y ∷ ys) = ground (arith, same_ci-text_eq xs ys)

-- On C strings `ci_equal` holds exactly when the lower-case strings are equal, and exactly when the
-- order of the extension maps takes the strings for one key.
pub ci_equal_iff :
    (a b : Text)
    → IsText a
    → IsText b
    → ((ci_equal (some a) (some b) ≡ true) ↔ (lower a ≡ lower b))
      × (ci_equal (some a) (some b) ≡ same_ci a b)
unfolding ci_equal
ci_equal_iff a b p q =
    let e = ci_loop-text_eq a b p q in
    (rw e (text_eq_iff (lower a) (lower b)), e ∙ sym (same_ci-text_eq a b))

pub less_ci_irrefl : (a : Text) → less_ci a a ≡ false
unfolding less_ci
less_ci_irrefl [] = refl
less_ci_irrefl (x ∷ xs) = ground (arith, less_ci_irrefl xs)

pub less_ci_trans : (a b c : Text) → less_ci a b ≡ true → less_ci b c ≡ true → less_ci a c ≡ true
unfolding less_ci
less_ci_trans [] [] c p q = cc
less_ci_trans [] (y ∷ ys) [] p q = cc
less_ci_trans [] (y ∷ ys) (z ∷ zs) p q = refl
less_ci_trans (x ∷ xs) [] c p q = cc
less_ci_trans (x ∷ xs) (y ∷ ys) [] p q = cc
less_ci_trans (x ∷ xs) (y ∷ ys) (z ∷ zs) p q = ground (arith, less_ci_trans xs ys zs)

same_ci-less : (a b c : Text) → same_ci b c ≡ true → less_ci a b ≡ less_ci a c
unfolding same_ci less_ci
same_ci-less [] [] [] h = refl
same_ci-less [] [] (z ∷ zs) h = cc
same_ci-less [] (y ∷ ys) [] h = cc
same_ci-less [] (y ∷ ys) (z ∷ zs) h = refl
same_ci-less (x ∷ xs) [] [] h = refl
same_ci-less (x ∷ xs) [] (z ∷ zs) h = cc
same_ci-less (x ∷ xs) (y ∷ ys) [] h = cc
same_ci-less (x ∷ xs) (y ∷ ys) (z ∷ zs) h = ground (arith, same_ci-less xs ys zs)

less_ci_asymm : (a b : Text) → less_ci a b ≡ true → less_ci b a ≡ false
unfolding less_ci
less_ci_asymm [] [] h = cc
less_ci_asymm [] (y ∷ ys) h = refl
less_ci_asymm (x ∷ xs) [] h = cc
less_ci_asymm (x ∷ xs) (y ∷ ys) h = ground (arith, less_ci_asymm xs ys)

-- The order of the maps is a strict weak order: a text below another is below every text that the
-- other is below or equivalent to, which is not below it in turn, and no text is below itself.
pub less_ci_order :
    (a b c : Text)
    → less_ci a b ≡ true
    → (less_ci b c ≡ true) ⊎ (same_ci b c ≡ true)
    → (less_ci a c ≡ true) × (less_ci c a ≡ false) × (less_ci a a ≡ false)
less_ci_order a b c h (inl k) =
    let t = less_ci_trans a b c h k in (t, less_ci_asymm a c t, less_ci_irrefl a)
less_ci_order a b c h (inr e) =
    let t = sym (same_ci-less a b c e) ∙ h in (t, less_ci_asymm a c t, less_ci_irrefl a)

-- What the maps need of a comparison of keys.
pub text_eq_same : SameKey text_eq
text_eq_same = record {
  reflexive = λ a. (text_eq_iff a a).1 refl;
  left = λ a b c h. ap (λ t. text_eq t c) ((text_eq_iff a b).0 h);
  right = λ a b c h. ap (λ t. text_eq c t) ((text_eq_iff a b).0 h);
}

same_ci-lower : (a b : Text) → same_ci a b ≡ true → lower a ≡ lower b
same_ci-lower a b h = (text_eq_iff (lower a) (lower b)).0 (sym (same_ci-text_eq a b) ∙ h)

pub same_ci_same : SameKey same_ci
same_ci_same = record {
  reflexive = λ a. same_ci-text_eq a a ∙ (text_eq_iff (lower a) (lower a)).1 refl;
  left = λ a b c h.
      same_ci-text_eq a c
      ∙ ap (λ t. text_eq t (lower c)) (same_ci-lower a b h)
      ∙ sym (same_ci-text_eq b c);
  right = λ a b c h.
      same_ci-text_eq c a
      ∙ ap (λ t. text_eq (lower c) t) (same_ci-lower a b h)
      ∙ sym (same_ci-text_eq c b);
}
