-- ===== src/Context/Existing.antt =====
-- Which contexts exist, and which one is current.
use libmacro.Prelude.{
  ℕ, ◌+◌, ◌≤◌, ◌≡◌, ◌∙◌, ap, sym, refl, List, [], ◌∷◌, ◌++◌, false, not, ◌&&◌, ◌||◌, ◌==◌,
  if◌then◌else◌, arith, has, count, count-eq-zero, has-without, has-append,
}
use libmacro.Error.{ok}
use libmacro.Context.{Instances, erase_first, construct, destruct, last, back, has_instance}

-- The stack and the set have the same contexts, and the stack has each once.
pub record IsConsistent (r : Instances) : Type 0 where
  pub same : (c : ℕ) → has c r.set ≡ has c r.stack
  pub once : (c : ℕ) → count c r.stack ≤ 1

count-append_one :
    (c this : ℕ) (cs : List ℕ)
    → count c (cs ++ (this ∷ [])) ≡ count c cs + (if this == c then 1 else 0)
count-append_one c this [] = ground arith
count-append_one c this (d ∷ cs) = ground (arith, count-append_one c this cs)

count-has : (c : ℕ) (cs : List ℕ) → count c cs ≤ 1 → count c cs ≡ (if has c cs then 1 else 0)
count-has c [] h = refl
count-has c (d ∷ cs) h = ground (arith, count-has c cs, h)

count-erase_first :
    (c this : ℕ) (cs : List ℕ)
    → count c cs ≡ count c (erase_first this cs) + (if (this == c) && has this cs then 1 else 0)
unfolding erase_first
count-erase_first c this [] = ground arith
count-erase_first c this (d ∷ cs) = ground (arith, count-erase_first c this cs)

pub has-count : (c : ℕ) (cs : List ℕ) → has c cs ≡ not (count c cs == 0)
has-count c [] = refl
has-count c (d ∷ cs) = ground (arith, has-count c cs)

has-erase_first :
    (c this : ℕ) (cs : List ℕ)
    → count this cs ≤ 1
    → has c (erase_first this cs) ≡ (not (this == c) && has c cs)
has-erase_first c this cs h =
    let e = count-erase_first c this cs in
    let a = has-count c cs in
    let b = has-count c (erase_first this cs) in let d = count-has this cs h in ground arith

-- The destruction of a context, whether it exists or not
pub destruct-IsConsistent :
    (other : ℕ) (r : Instances)
    → IsConsistent r
    → IsConsistent (destruct other r)
      × ((c : ℕ) → has_instance c (destruct other r) ≡ (not (other == c) && has_instance c r))
unfolding destruct has_instance
destruct-IsConsistent other r v = (
  record {
    same = λ c. ground (
      arith,
      v.same c,
      has-without other c r.set,
      has-erase_first c other r.stack (v.once other),
    );
    once = λ c. ground (arith, v.once c, count-erase_first c other r.stack);
  },
  λ c. has-without other c r.set,
)

-- From a stack and a set with the same contexts, each once, the construction of a new context and
-- the destruction of any keep the stack and the set of contexts together, and `hasInstance` says of
-- each context whether it has been constructed and not destructed.
pub construct-destruct-IsConsistent :
    (this other : ℕ) (r : Instances)
    → IsConsistent r
    → has_instance this r ≡ false
    → IsConsistent (construct this r)
      × IsConsistent (destruct other r)
      × ((c : ℕ)
          → (has_instance c (construct this r) ≡ (this == c || has_instance c r))
            × (has_instance c (destruct other r) ≡ (not (other == c) && has_instance c r)))
unfolding construct has_instance
construct-destruct-IsConsistent this other r v fresh =
    let absent : count this r.stack ≡ 0 = count-eq-zero this r.stack (sym (v.same this) ∙ fresh) in
    let (gone, told) = destruct-IsConsistent other r v in
    (
      record {
        same = λ c. ground (arith, v.same c, fresh, has-append c r.stack (this ∷ []));
        once = λ c. ground (arith, v.once c, count-append_one c this r.stack, absent);
      },
      gone,
      λ c. (ground (arith, fresh), told c),
    )

pub last-append_one : (c this : ℕ) (cs : List ℕ) → last c (cs ++ (this ∷ [])) ≡ this
last-append_one c this [] = refl
last-append_one c this (d ∷ cs) = last-append_one d this cs

pub back-append_one : (this : ℕ) (cs : List ℕ) → back (cs ++ (this ∷ [])) ≡ ok this
unfolding back
back-append_one this [] = refl
back-append_one this (c ∷ cs) = ap ok (last-append_one c this cs)
