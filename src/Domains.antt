-- ===== src/Domains.antt =====
-- Lists of domain names: validateDomainName and parseDomainCSV
-- (src/components/cpp/ServiceDirectory/ServiceDirectory.cpp), and parseValidDomains
-- (ServiceDirectoryUDPReceiver.cpp). A text is the list of its bytes.
pub mod Split
pub mod Csv
pub mod Valid
mod Tests
use gravity.Prelude.{
  ℕ, zero, suc, ◌+◌, ◌-◌, ◌%◌, ◌^◌, Bool, true, false, ◌&&◌, ◌||◌, List, [], ◌∷◌, ◌++◌, Option,
  none, some, leb, ltb, nat_eq, if◌then◌else◌, length, take, drop, is_empty,
}

abbrev pub comma : ℕ
comma = b','

-- std::isalnum in the default locale
abbrev pub is_alnum : ℕ → Bool
is_alnum c = (leb b'0' c && leb c b'9') || (leb b'A' c && leb c b'Z') || (leb b'a' c && leb c b'z')

-- validateDomainName
unfoldable pub validate_domain_name : List ℕ → Bool
validate_domain_name [] = true
validate_domain_name (c ∷ cs) =
    if is_alnum c || nat_eq c b'.' then validate_domain_name cs else false

-- the first comma of a text
unfoldable pub index_of_comma : List ℕ → Option ℕ
index_of_comma [] = none
index_of_comma (c ∷ cs) =
    if nat_eq c comma
    then some 0
    else (elim (index_of_comma cs) [ none ↦ none | some i ↦ some (suc i) ])

-- text.find(",", start); none is npos
abbrev pub find_comma : List ℕ → ℕ → Option ℕ
find_comma text start = elim (index_of_comma (drop start text)) [
  | none ↦ none
  | some i ↦ some (start + i)
]

-- the size_t that an int becomes: its 32 bits, extended by its sign
abbrev pub size_of_int : ℕ → ℕ
size_of_int n = if ltb (n % 2 ^ 32) (2 ^ 31) then n % 2 ^ 32 else n % 2 ^ 32 + (2 ^ 64 - 2 ^ 32)

-- text.substr(start, count); none is the exception out_of_range
abbrev pub substr : List ℕ → ℕ → ℕ → Option (List ℕ)
substr text start count =
    if leb start (length text) then some (take count (drop start text)) else none

-- what parseDomainCSV comes to: a number, -1, substr's exception, or no end within the fuel
pub data Parsed : Type 0 where
  counted : ℕ → Parsed
  invalid out_of_range unfinished : Parsed

-- the while loop of parseDomainCSV, with prevPos as the size_t that its uses convert it to; an int
-- is its 32 bits
unfoldable pub parse_loop : ℕ → List ℕ → ℕ → Option ℕ → ℕ → Parsed
parse_loop zero csv prev_pos pos comma_count = unfinished
parse_loop (suc fuel) csv prev_pos none comma_count = counted ((comma_count + 1) % 2 ^ 32)
parse_loop (suc fuel) csv prev_pos (some pos) comma_count =
    let rest =
      parse_loop fuel csv (size_of_int (pos + 1)) (find_comma csv (pos + 1))
        ((comma_count + 1) % 2 ^ 32) in
    elim (substr csv prev_pos ((pos + 2 ^ 64 - prev_pos) % 2 ^ 64)) [
      | none ↦ out_of_range
      | some name ↦ if validate_domain_name name then rest else invalid
    ]

-- parseDomainCSV: one round for each comma, so the length is fuel enough
unfoldable pub parse_domain_csv : List ℕ → Parsed
unfolding parse_loop
parse_domain_csv csv =
    if is_empty csv then counted 0 else parse_loop (length csv + 1) csv 0 (find_comma csv 0) 0

-- unsigned int end = text.find(",", start): npos loses its upper half, so the test for npos that
-- follows in the source never holds where size_t has 64 bits
abbrev pub find_u32 : List ℕ → ℕ → ℕ
find_u32 text start = elim (find_comma text start) [ none ↦ 2 ^ 32 - 1 | some pos ↦ pos % 2 ^ 32 ]

-- the for loop of parseValidDomains, with the int start as the size_t that its uses convert it to;
-- none is substr's exception
unfoldable pub collect_domains : ℕ → List ℕ → ℕ → ℕ → Option (List (List ℕ))
collect_domains zero text start end = some []
collect_domains (suc n) text start end =
    let next = size_of_int (end + 1) in
    let rest = collect_domains n text next (find_u32 text next) in
    elim (substr text start ((end + 2 ^ 32 - start % 2 ^ 32) % 2 ^ 32)) [
      | none ↦ none
      | some sub ↦ (elim rest [ none ↦ none | some subs ↦ some (sub ∷ subs) ])
    ]

-- parseValidDomains: what it adds to the valid domains
unfoldable pub parse_valid_domains : List ℕ → ℕ → Option (List (List ℕ))
unfolding collect_domains
parse_valid_domains text num_domains = collect_domains num_domains text 0 (find_u32 text 0)
