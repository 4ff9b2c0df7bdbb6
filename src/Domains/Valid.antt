-- ===== src/Domains/Valid.antt =====
-- The domains that the receiver takes from the list are the parts of the text.
use gravity.Prelude.{
  ℕ, zero, suc, ◌+◌, ◌-◌, ◌%◌, ◌^◌, ◌≤◌, ◌<◌, ◌≡◌, ◌≢◌, refl, sym, ap, ◌∙◌, true, List, [], ◌∷◌,
  Option, none, some, if_true, leb, length, take, drop, take_all, length-drop, arith,
}
use gravity.Domains.{
  index_of_comma, size_of_int, find_u32, counted, collect_domains, parse_valid_domains,
  parse_domain_csv,
}
use gravity.Domains.Split.{split, split-pos, split_no_comma, split_at_comma}
use gravity.Domains.Csv.{drop_after, size_of_small, parse_domain_csv_lem}

-- unsigned int end, from what find returned
abbrev to_u32 : ℕ → Option ℕ → ℕ
to_u32 start none = 2 ^ 32 - 1
to_u32 start (some i) = (start + i) % 2 ^ 32

find_u32_lem :
    (text : List ℕ) (start : ℕ)
    → find_u32 text start ≡ to_u32 start (index_of_comma (drop start text))
find_u32_lem text start = go (index_of_comma (drop start text))
  where
    go :
        (o : Option ℕ)
        → (elim (elim o as (λ _. Option ℕ) [ none ↦ none | some i ↦ some (start + i) ])
            as (λ _. ℕ) [ none ↦ 2 ^ 32 - 1 | some pos ↦ pos % 2 ^ 32 ])
          ≡ to_u32 start o
    go none = refl
    go (some i) = refl

collect_none :
    (n : ℕ) (text : List ℕ) (start end : ℕ) → n ≡ 0 → collect_domains n text start end ≡ some []
unfolding collect_domains
collect_none zero text start end h = refl
collect_none (suc n) text start end h = absurd (omega arith)

-- a part in front of those behind it
abbrev onto : List ℕ → Option (List (List ℕ)) → Option (List (List ℕ))
onto sub rest = elim rest [ none ↦ none | some subs ↦ some (sub ∷ subs) ]

module _ (text : List ℕ) (short : length text < 2 ^ 31 - 1) where
  -- A round whose substr stays inside the text.
  collect_step :
      (n start end count : ℕ) (sub : List ℕ)
      → start ≤ length text
      → (end + 2 ^ 32 - start % 2 ^ 32) % 2 ^ 32 ≡ count
      → take count (drop start text) ≡ sub
      → collect_domains (suc n) text start end
        ≡ onto sub
            (collect_domains n text (size_of_int (end + 1)) (find_u32 text (size_of_int (end + 1))))
  unfolding collect_domains
  collect_step n start end count sub h e f =
      let rest =
        collect_domains n text (size_of_int (end + 1)) (find_u32 text (size_of_int (end + 1))) in
      ap (λ (o : Option (List ℕ)). elim o [ none ↦ none | some s ↦ onto s rest ])
        (if_true _ _ _ (le→leb start (length text) h)
          ∙ ap (λ k. some (take k (drop start text))) e
          ∙ ap some f)
    where
      le→leb : (a b : ℕ) → a ≤ b → leb a b ≡ true
      le→leb a b h = ground arith

  module _ (n : ℕ)
      (fewer : (start : ℕ)
        → start ≤ length text
        → length (split (drop start text)) ≡ n
        → collect_domains n text start (find_u32 text start) ≡ some (split (drop start text))) where
    collect_round :
        (start : ℕ)
        → start ≤ length text
        → length (split (drop start text)) ≡ suc n
        → (o : Option ℕ) → index_of_comma (drop start text) ≡ o
        → collect_domains (suc n) text start (to_u32 start o) ≡ some (split (drop start text))
    collect_round start h m none e =
        let rest = drop start text in
        let whole = split_no_comma rest e in
        let size = length-drop start text in
        let count = (2 ^ 32 - 1 + 2 ^ 32 - start % 2 ^ 32) % 2 ^ 32 in
        let last : n ≡ 0 = omega (arith, ap length whole) in
        collect_step n start (2 ^ 32 - 1) count rest h refl
          (take_all count rest (omega (arith, size)))
        ∙ ap (onto rest) (collect_none n text _ _ last)
        ∙ ap some (sym whole)
    collect_round start h m (some i) e =
        let rest = drop start text in
        let parts = split_at_comma rest i e in
        let inside = parts.1 in
        let size = length-drop start text in
        let end = (start + i) % 2 ^ 32 in
        let next_eq : size_of_int (end + 1) ≡ start + i + 1 =
          (let same : end + 1 ≡ start + i + 1 = omega arith in
            ap size_of_int same ∙ size_of_small (start + i + 1) (omega arith)) in
        let after = ap split (drop_after i start text) in
        collect_step n start end i (take i rest) h (omega arith) refl
        ∙ ap (λ k. onto (take i rest) (collect_domains n text k (find_u32 text k))) next_eq
        ∙ ap (onto (take i rest)) (
            fewer (start + i + 1) (omega arith) (omega (arith, ap length after, ap length parts.0))
            ∙ ap some after)
        ∙ ap some (sym parts.0)

collect_domains_lem :
    (text : List ℕ)
    → length text < 2 ^ 31 - 1
    → (n start : ℕ) → start ≤ length text
    → length (split (drop start text)) ≡ n
    → collect_domains n text start (find_u32 text start) ≡ some (split (drop start text))
collect_domains_lem text short zero start h m = absurd (omega (arith, split-pos (drop start text)))
collect_domains_lem text short (suc n) start h m =
    ap (collect_domains (suc n) text start) (find_u32_lem text start)
    ∙ collect_round text short n (collect_domains_lem text short n) start h m
        (index_of_comma (drop start text)) refl

-- For the number of domains that parseDomainCSV counts in a text that is not empty and has fewer
-- than 2 ^ 31 - 1 bytes, so that its positions fit an int, parseValidDomains throws nothing and
-- adds the parts of the text.
pub parse_valid_domains-parse_domain_csv :
    (csv : List ℕ) (n : ℕ)
    → csv ≢ []
    → length csv < 2 ^ 31 - 1
    → parse_domain_csv csv ≡ counted n
    → parse_valid_domains csv n ≡ some (split csv)
unfolding parse_valid_domains
parse_valid_domains-parse_domain_csv csv n full short counts =
    collect_domains_lem csv short n 0 (omega arith)
      (ground (arith, counts, parse_domain_csv_lem csv full short))
