-- ===== src/Domains/Split.antt =====
-- The parts of a text between its commas, and how searching for commas finds them.
use gravity.Prelude.{
  ℕ, zero, suc, ◌+◌, ◌≤◌, ◌<◌, ◌≡◌, refl, Bool, true, ◌&&◌, List, [], ◌∷◌, none, some, nat_eq,
  nat_eq_iff, if◌then◌else◌, length, take, drop, arith,
}
use gravity.Domains.{comma, index_of_comma, validate_domain_name}

-- a byte in front of the first part
abbrev pub onto_first : ℕ → List (List ℕ) → List (List ℕ)
onto_first c [] = (c ∷ []) ∷ []
onto_first c (p ∷ ps) = (c ∷ p) ∷ ps

-- The parts of a text between its commas; the empty text has one part.
unfoldable pub split : List ℕ → List (List ℕ)
split [] = [] ∷ []
split (c ∷ cs) = if nat_eq c comma then [] ∷ split cs else onto_first c (split cs)

-- Whether all parts but the last are valid names.
abbrev pub valid_before_last : List (List ℕ) → Bool
valid_before_last [] = true
valid_before_last (p ∷ []) = true
valid_before_last (p ∷ q ∷ ps) = validate_domain_name p && valid_before_last (q ∷ ps)

length-onto_first :
    (c : ℕ) (ps : List (List ℕ)) → 0 < length ps → length (onto_first c ps) ≡ length ps
length-onto_first c [] h = elim h [ ]
length-onto_first c (p ∷ ps) h = refl

pub split-pos : (cs : List ℕ) → 0 < length (split cs)
unfolding split
split-pos [] = omega arith
split-pos (c ∷ cs) = ground (arith, split-pos cs, length-onto_first c (split cs))

pub length-split-le : (cs : List ℕ) → length (split cs) ≤ length cs + 1
unfolding split
length-split-le [] = omega arith
length-split-le (c ∷ cs) =
    let rest = length-split-le cs in
    let kept = length-onto_first c (split cs) in ground (arith, rest, kept, split-pos cs)

pub split_no_comma : (cs : List ℕ) → index_of_comma cs ≡ none → split cs ≡ cs ∷ []
unfolding index_of_comma split
split_no_comma [] h = refl
split_no_comma (c ∷ cs) h = ground (arith, split_no_comma cs)

pub split_at_comma :
    (cs : List ℕ) (i : ℕ)
    → index_of_comma cs ≡ some i
    → (split cs ≡ take i cs ∷ split (drop (suc i) cs)) × (i < length cs)
unfolding index_of_comma split
split_at_comma [] i h = cc
split_at_comma (c ∷ cs) zero h = ground (arith, nat_eq_iff c comma)
split_at_comma (c ∷ cs) (suc i) h = ground (arith, split_at_comma cs i)

pub valid_before_last-cons :
    (p cs : List ℕ)
    → valid_before_last (p ∷ split cs) ≡ validate_domain_name p && valid_before_last (split cs)
unfolding split
valid_before_last-cons p [] = refl
valid_before_last-cons p (c ∷ cs) = ground arith
