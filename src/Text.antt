-- ===== src/Text.antt =====
-- C strings as lists of bytes, the terminator left off, and the comparisons that ignore case:
-- `ci_equal` of src/serial.cpp and mcr/template/string_less_ci.h. `tolower` is that of the C locale.
pub mod Laws
use Prim.Native.Char.{code}
use Prim.Native.String.{String}
use libmacro.Prelude.{
  ℕ, ◌+◌, ◌<◌, List, [], ◌∷◌, map, Option, none, some, Bool, true, false, not, ◌&&◌, ◌==◌, leb, ltb,
  if◌then◌else◌, All,
}

abbrev pub Text : Type 0
Text = List ℕ

-- No byte ends the string early.
abbrev pub IsText : Text → Type 0
IsText = All λ c. 0 < c

abbrev pub text : String → Text
text String.[] = []
text (String.◌∷◌ c s) = code c ∷ text s

unfoldable pub tolower : ℕ → ℕ
tolower c = if leb b'A' c && leb c b'Z' then c + 32 else c

abbrev pub lower : Text → Text
lower = map tolower

-- The loop of `ci_equal`; where a string has ended, the byte read is the terminator.
unfoldable pub ci_loop : Text → Text → Bool
unfolding tolower
ci_loop [] [] = true
ci_loop [] (y ∷ ys) = tolower 0 == tolower y
ci_loop (x ∷ xs) [] = tolower x == tolower 0
ci_loop (x ∷ xs) (y ∷ ys) = if tolower x == tolower y then ci_loop xs ys else false

unfoldable pub ci_equal : Option Text → Option Text → Bool
unfolding ci_loop
ci_equal none none = true
ci_equal none (some b) = false
ci_equal (some a) none = false
ci_equal (some a) (some b) = ci_loop a b

-- `string_less_ci`: `std::lexicographical_compare` with `nocase_compare`
unfoldable pub less_ci : Text → Text → Bool
unfolding tolower
less_ci [] [] = false
less_ci [] (y ∷ ys) = true
less_ci (x ∷ xs) [] = false
less_ci (x ∷ xs) (y ∷ ys) =
    let rest = less_ci xs ys in
    if ltb (tolower x) (tolower y)
    then true
    else if ltb (tolower y) (tolower x)
    then false
    else rest

-- The keys that a `std::map` ordered by `string_less_ci` takes for one.
unfoldable pub same_ci : Text → Text → Bool
unfolding less_ci
same_ci a b = not (less_ci a b) && not (less_ci b a)

-- `std::string::operator==`
unfoldable pub text_eq : Text → Text → Bool
text_eq [] [] = true
text_eq [] (y ∷ ys) = false
text_eq (x ∷ xs) [] = false
text_eq (x ∷ xs) (y ∷ ys) = x == y && text_eq xs ys
