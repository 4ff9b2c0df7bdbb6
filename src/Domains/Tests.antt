-- ===== src/Domains/Tests.antt =====
-- Lists of domains that the directory parses.
use gravity.Prelude.{ℕ, ◌≡◌, ◌≢◌, refl, false, true, List, [], ◌∷◌, some, is_empty, ap, arith}
use gravity.Domains.{
  counted, parse_domain_csv, parse_valid_domains, index_of_comma, validate_domain_name,
}
use gravity.Domains.Split.{split}
use gravity.Domains.Csv.{count_parts, parse_domain_csv_lem}
use gravity.Domains.Valid.{parse_valid_domains-parse_domain_csv}

-- "a,b!"
abbrev listed : List ℕ
listed = b'a' ∷ b',' ∷ b'b' ∷ b'!' ∷ []

listed_full : listed ≢ []
listed_full e = let h : false ≡ true = ap is_empty e in ground (arith, h)

count_listed : parse_domain_csv listed ≡ counted 2
unfolding parse_domain_csv index_of_comma validate_domain_name
count_listed = refl

parse_domain_csv_lem_example : parse_domain_csv listed ≡ count_parts (split listed)
parse_domain_csv_lem_example = parse_domain_csv_lem listed listed_full (omega arith)

parse_valid_domains-parse_domain_csv_example : parse_valid_domains listed 2 ≡ some (split listed)
parse_valid_domains-parse_domain_csv_example =
    parse_valid_domains-parse_domain_csv listed 2 listed_full (omega arith) count_listed
