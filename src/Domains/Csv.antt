-- ===== src/Domains/Csv.antt =====
-- The loops over a list of domains against its parts.
use gravity.Prelude.{
  ℕ, zero, suc, ◌+◌, ◌-◌, ◌%◌, ◌^◌, ◌<◌, ◌≡◌, ◌≢◌, refl, sym, ap, ◌∙◌, true, List, [], ◌∷◌, Option,
  none, some, if◌then◌else◌, if_true, leb, length, take, drop, drop-drop, length-drop, arith,
}
use gravity.Domains.{
  index_of_comma, find_comma, substr, size_of_int, validate_domain_name, Parsed, counted, invalid,
  out_of_range, parse_loop, parse_domain_csv,
}
use gravity.Domains.Split.{
  split, length-split-le, split_no_comma, split_at_comma, valid_before_last, valid_before_last-cons,
}

-- The number of parts behind those before, in 32 bits, if all of them but the last are valid.
abbrev count_from : List (List ℕ) → ℕ → Parsed
count_from parts before =
    if valid_before_last parts then counted ((before + length parts) % 2 ^ 32) else invalid

-- The number of parts, if all of them but the last are valid.
abbrev pub count_parts : List (List ℕ) → Parsed
count_parts parts = if valid_before_last parts then counted (length parts) else invalid

count_step :
    (p cs : List ℕ) (count : ℕ)
    → (if validate_domain_name p then count_from (split cs) ((count + 1) % 2 ^ 32) else invalid)
      ≡ count_from (p ∷ split cs) count
count_step p cs count =
    let e : ((count + 1) % 2 ^ 32 + length (split cs)) % 2 ^ 32
        ≡ (count + suc (length (split cs))) % 2 ^ 32 =
      omega arith in
    ground (arith, valid_before_last-cons p cs, e)

-- A part inside a text of fewer than 2 ^ 31 - 1 bytes is read as it stands.
substr_inside :
    (csv : List ℕ) (prev i : ℕ)
    → length csv < 2 ^ 31 - 1
    → i < length (drop prev csv)
    → substr csv prev ((prev + i + 2 ^ 64 - prev) % 2 ^ 64) ≡ some (take i (drop prev csv))
substr_inside csv prev i short inside =
    let size = length-drop prev csv in
    let e : (prev + i + 2 ^ 64 - prev) % 2 ^ 64 ≡ i = omega arith in
    rw e (if_true _ _ _ (lt_leb prev (length csv) (omega arith)))
  where
    lt_leb : (a b : ℕ) → a < b → leb a b ≡ true
    lt_leb a b h = ground arith

pub size_of_small : (n : ℕ) → n < 2 ^ 31 → size_of_int n ≡ n
size_of_small n h = ground arith

-- The text after the comma at `i`.
pub drop_after :
    (i prev : ℕ) (csv : List ℕ) → drop (prev + i + 1) csv ≡ drop (suc i) (drop prev csv)
drop_after i prev csv =
    let e : prev + i + 1 ≡ prev + suc i = omega arith in
    ap (λ k. drop k csv) e ∙ sym (drop-drop (suc i) prev csv)

module _ (fuel : ℕ) (csv : List ℕ) (short : length csv < 2 ^ 31 - 1)
    (smaller : (prev count : ℕ)
      → length (drop prev csv) < fuel
      → parse_loop fuel csv prev (find_comma csv prev) count
        ≡ count_from (split (drop prev csv)) count) where
  parse_round :
      (prev count : ℕ)
      → length (drop prev csv) < suc fuel
      → (o : Option ℕ) → index_of_comma (drop prev csv) ≡ o
      → parse_loop (suc fuel) csv prev (elim o [ none ↦ none | some i ↦ some (prev + i) ]) count
        ≡ count_from (split (drop prev csv)) count
  unfolding parse_loop
  parse_round prev count h none e =
      sym (ap (λ ps. count_from ps count) (split_no_comma (drop prev csv) e))
  parse_round prev count h (some i) e =
      let rest = drop prev csv in
      let parts = split_at_comma rest i e in
      let after = drop_after i prev csv in
      let shorter = length-drop (suc i) rest in
      let size = length-drop prev csv in
      let inside = parts.1 in
      let next = (count + 1) % 2 ^ 32 in
      let name = take i rest in
      ap
        (λ (o : Option (List ℕ)). elim o [
          | none ↦ out_of_range
          | some part ↦
              if validate_domain_name part
              then parse_loop fuel csv (size_of_int (prev + i + 1)) (find_comma csv (prev + i + 1))
                  next
              else invalid
        ])
        (substr_inside csv prev i short inside)
      ∙ ap
          (λ k.
            if validate_domain_name name
            then parse_loop fuel csv k (find_comma csv (prev + i + 1)) next
            else invalid)
          (size_of_small (prev + i + 1) (omega arith))
      ∙ ap (λ r. if validate_domain_name name then r else invalid)
          (smaller (prev + i + 1) next (omega (arith, ap length after))
            ∙ ap (λ text. count_from (split text) next) after)
      ∙ count_step name (drop (suc i) rest) count
      ∙ sym (ap (λ ps. count_from ps count) parts.0)

parse_loop_lem :
    (fuel : ℕ) (csv : List ℕ)
    → length csv < 2 ^ 31 - 1
    → (prev count : ℕ) → length (drop prev csv) < fuel
    → parse_loop fuel csv prev (find_comma csv prev) count
      ≡ count_from (split (drop prev csv)) count
parse_loop_lem zero csv short prev count h = elim h [ ]
parse_loop_lem (suc fuel) csv short prev count h =
    parse_round fuel csv short (parse_loop_lem fuel csv short) prev count h
      (index_of_comma (drop prev csv)) refl

counted_all :
    (csv : List ℕ) → length csv < 2 ^ 31 - 1 → count_from (split csv) 0 ≡ count_parts (split csv)
counted_all csv short =
    let few = length-split-le csv in
    let e : (0 + length (split csv)) % 2 ^ 32 ≡ length (split csv) = omega arith in
    ap (λ n. if valid_before_last (split csv) then counted n else invalid) e

-- For a text that is not empty and has fewer than 2 ^ 31 - 1 bytes, so that its positions fit an
-- int, parseDomainCSV ends without an exception: it returns the number of parts if all of them but
-- the last are valid names, and -1 otherwise.
pub parse_domain_csv_lem :
    (csv : List ℕ)
    → csv ≢ []
    → length csv < 2 ^ 31 - 1
    → parse_domain_csv csv ≡ count_parts (split csv)
unfolding parse_domain_csv
parse_domain_csv_lem [] h short = absurd (h refl)
parse_domain_csv_lem (c ∷ cs) h short =
    parse_loop_lem (length (c ∷ cs) + 1) (c ∷ cs) short 0 0 (omega arith)
    ∙ counted_all (c ∷ cs) short
