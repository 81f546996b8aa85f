-- ===== src/Serial/IgnoresCase.antt =====
-- Readers of names that ignore case, and the general round trip through a `switch`.
use libmacro.Prelude.{
  ℕ, ◌≡◌, refl, sym, ◌∙◌, List, [], ◌∷◌, some, Bool, true, ◌&&◌, ◌==◌, ltb, arith,
}
use libmacro.Text.{Text, IsText, lower, ci_loop, ci_equal}
use libmacro.Text.Laws.{ci_equal_iff}
use libmacro.Serial.Tables.{NameValue, name_value, switch_name}

-- The comparison sees the lower-case text alone.
ci_loop-lower : (a s t : Text) → lower s ≡ lower t → ci_loop a s ≡ ci_loop a t
unfolding ci_loop
ci_loop-lower [] [] [] h = refl
ci_loop-lower [] [] (z ∷ zs) h = cc
ci_loop-lower [] (y ∷ ys) [] h = cc
ci_loop-lower [] (y ∷ ys) (z ∷ zs) h = ground arith
ci_loop-lower (x ∷ xs) [] [] h = refl
ci_loop-lower (x ∷ xs) [] (z ∷ zs) h = cc
ci_loop-lower (x ∷ xs) (y ∷ ys) [] h = cc
ci_loop-lower (x ∷ xs) (y ∷ ys) (z ∷ zs) h = ground (arith, ci_loop-lower xs ys zs)

pub name_value-lower :
    (es : List NameValue) (s t : Text) (d : ℕ)
    → lower s ≡ lower t
    → name_value es (some s) d ≡ name_value es (some t) d
unfolding name_value ci_equal
name_value-lower [] s t d h = refl
name_value-lower (e ∷ es) s t d h = rw (ci_loop-lower e.name s t h, name_value-lower es s t d h)

is_text : Text → Bool
is_text [] = true
is_text (c ∷ s) = ltb 0 c && is_text s

is_text_sound : (s : Text) → is_text s ≡ true → IsText s
unfolding is_text
is_text_sound [] h = tt
is_text_sound (c ∷ s) h = ground (arith, is_text_sound s)

-- Each name of a `switch` is a text that `read` takes back to the value of its case.
unfoldable pub agrees : (Text → ℕ) → List NameValue → Bool
unfolding is_text
agrees read [] = true
agrees read (e ∷ es) = is_text e.name && read e.name == e.value && agrees read es

pub switch_agrees :
    (read : Text → ℕ) (cs : List NameValue) (v : ℕ) (s : Text)
    → agrees read cs ≡ true
    → switch_name cs v ≡ some s
    → IsText s × (read s ≡ v)
unfolding agrees switch_name
switch_agrees read [] v s a h = cc
switch_agrees read (e ∷ es) v s a h =
    ground (arith, is_text_sound e.name, switch_agrees read es v s)

-- A reader that sees the lower-case text alone.
abbrev pub IgnoresCase : (Text → ℕ) → Type 0
IgnoresCase read = (s t : Text) → lower s ≡ lower t → read s ≡ read t

pub round_trip :
    (read : Text → ℕ) (cs : List NameValue) (v : ℕ) (s t : Text)
    → IgnoresCase read
    → agrees read cs ≡ true
    → switch_name cs v ≡ some s
    → IsText t
    → ci_equal (some s) (some t) ≡ true
    → read t ≡ v
round_trip read cs v s t ignores a h w e =
    let (ws, r) = switch_agrees read cs v s a h in
    sym (ignores s t ((ci_equal_iff s t ws w).0.0 e)) ∙ r
