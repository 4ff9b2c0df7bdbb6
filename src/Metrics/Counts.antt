-- ===== src/Metrics/Counts.antt =====
-- What is counted between two resets.
use gravity.Prelude.{
  ℕ, ◌+◌, ◌%◌, ◌^◌, ◌<◌, ◌≡◌, refl, ap, ap₂, ◌∙◌, String, Bool, true, false, ◌||◌, List, [], ◌∷◌,
  if◌then◌else◌, arith,
}
use gravity.Prelude.Key.{◌==◌, string_key}
use gravity.Prelude.Maps.{Map, lookup, has, get_or, lookup-insert}
use gravity.Metrics.{
  Sample, Metrics, zero_sample, increment_message_count, reset, reset_samples, get_message_count,
  no_count,
}

-- the calls of incrementMessageCount, first to last
unfoldable pub count_all : List (String × ℕ) → Metrics → Metrics
unfolding increment_message_count
count_all [] m = m
count_all ((id, count) ∷ rest) m = count_all rest (increment_message_count id count m)

-- whether a call names the product, and the sum of their counts
abbrev pub is_counted : String → List (String × ℕ) → Bool
is_counted k [] = false
is_counted k ((id, count) ∷ rest) = (id == k) || is_counted k rest

abbrev pub total : String → List (String × ℕ) → ℕ
total k [] = 0
total k ((id, count) ∷ rest) = (if id == k then count else 0) + total k rest

abbrev so_far : String → Metrics → ℕ
so_far k m = (get_or zero_sample k m.metrics).message_count

so_far-increment :
    (id k : String) (count : ℕ) (m : Metrics)
    → so_far k (increment_message_count id count m)
      ≡ (if id == k then (so_far k m + count) % 2 ^ 32 else so_far k m)
unfolding increment_message_count
so_far-increment id k count m = ground (
  arith,
  lookup-insert id k
      (record (get_or zero_sample id m.metrics) {
        message_count = ((get_or zero_sample id m.metrics).message_count + count) % 2 ^ 32;
      })
      m.metrics,
  string_key.beq_iff id k,
)

has-increment :
    (id k : String) (count : ℕ) (m : Metrics)
    → has k (increment_message_count id count m).metrics ≡ ((id == k) || has k m.metrics)
unfolding increment_message_count
has-increment id k count m = ground (
  arith,
  lookup-insert id k
      (record (get_or zero_sample id m.metrics) {
        message_count = ((get_or zero_sample id m.metrics).message_count + count) % 2 ^ 32;
      })
      m.metrics,
)

increment_small :
    (id k : String) (count : ℕ) (m : Metrics)
    → so_far k m < 2 ^ 32
    → so_far k (increment_message_count id count m) < 2 ^ 32
increment_small id k count m small = ground (arith, small, so_far-increment id k count m)

add_mod : (a b c : ℕ) → ((a + b) % 2 ^ 32 + c) % 2 ^ 32 ≡ (a + (b + c)) % 2 ^ 32
add_mod a b c = omega arith

-- The value counted for a product, from whether it is tracked and its counts so far.
abbrev expected : Bool → ℕ → ℕ
expected tracked n = if tracked then n % 2 ^ 32 else no_count

expected_step :
    (c t h : Bool) (n count rest : ℕ)
    → expected (t || (c || h)) ((if c then (n + count) % 2 ^ 32 else n) + rest)
      ≡ expected ((c || t) || h) (n + ((if c then count else 0) + rest))
expected_step true t h n count rest = ground (arith, add_mod n count rest)
expected_step false t h n count rest = ground arith

counted :
    (k : String) (es : List (String × ℕ)) (m : Metrics)
    → so_far k m < 2 ^ 32
    → get_message_count k (count_all es m)
      ≡ expected (is_counted k es || has k m.metrics) (so_far k m + total k es)
unfolding count_all get_message_count
counted k [] m small = ground (arith, small)
counted k ((id, count) ∷ es) m small =
    let m1 = increment_message_count id count m in
    counted k es m1 (increment_small id k count m small)
    ∙ ap₂ (λ h n. expected (is_counted k es || h) (n + total k es)) (has-increment id k count m)
        (so_far-increment id k count m)
    ∙ expected_step (id == k) (is_counted k es) (has k m.metrics) (so_far k m) count (total k es)

so_far-reset :
    (k : String) (samples : Map String Sample)
    → get_or zero_sample k (reset_samples samples) ≡ zero_sample
unfolding reset_samples lookup
so_far-reset k [] = refl
so_far-reset k ((id, sample) ∷ samples) = ground (arith, so_far-reset k samples)

has-reset_samples :
    (k : String) (samples : Map String Sample) → has k (reset_samples samples) ≡ has k samples
unfolding reset_samples lookup
has-reset_samples k [] = refl
has-reset_samples k ((id, sample) ∷ samples) = ground (arith, has-reset_samples k samples)

-- After a reset, the message count of a product is the sum of the counts given for it since,
-- modulo 2 ^ 32; it is -1 for a product that was not tracked before the reset nor counted since.
pub get_message_count-reset :
    (now : ℕ) (m : Metrics) (es : List (String × ℕ)) (k : String)
    → get_message_count k (count_all es (reset now m))
      ≡ (if is_counted k es || has k m.metrics then total k es % 2 ^ 32 else no_count)
unfolding reset
get_message_count-reset now m es k =
    let zero_eq = so_far-reset k m.metrics in
    let e : so_far k (reset now m) ≡ 0 = ap (λ (s : Sample). s.message_count) zero_eq in
    ground (arith, counted k es (reset now m) (omega (arith, e)), e, has-reset_samples k m.metrics)
