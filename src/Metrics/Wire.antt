-- ===== src/Metrics/Wire.antt =====
-- What is read from the message of a metrics object.
use mathlib.Core.List.{append_assoc}
use gravity.Prelude.{
  ℕ, ◌%◌, ◌^◌, ◌<◌, ◌≡◌, refl, ap, ◌∙◌, String, false, List, [], ◌∷◌, ◌++◌, Option, none, some,
  length, is_empty, if◌then◌else◌, arith,
}
use gravity.Prelude.Key.{string_key}
use gravity.Prelude.Maps.{Map, lookup, has, insert, lookup-insert}
use gravity.Prelude.Unique.{Unique}
use gravity.Metrics.{
  Sample, Metrics, clear, Frame, int, uint64, sample_frames, send_as_message, read_samples,
  populate_from_message,
}

-- what the samples of `samples` leave of the ones before
abbrev over : Map String Sample → Map String Sample → String → Option Sample
over samples before k = elim (lookup k samples) [ none ↦ lookup k before | some x ↦ some x ]

record Recovered (samples : Map String Sample) (start end : ℕ) (rest : List Frame) (m : Metrics)
    : Type 0 where
  result : Metrics
  read_eq :
      read_samples (length samples) (sample_frames samples ++ uint64 start ∷ uint64 end ∷ rest) m
      ≡ some (result, rest)
  samples_eq : (k : String) → lookup k result.metrics ≡ over samples m.metrics k
  start_eq : result.start_time ≡ start
  end_eq : result.end_time ≡ end

over-cons :
    (id : String) (sample : Sample) (samples before : Map String Sample) (k : String)
    → has id samples ≡ false
    → over samples (insert id sample before) k ≡ over ((id, sample) ∷ samples) before k
unfolding lookup
over-cons id sample samples before k absent =
    ground (arith, absent, lookup-insert id k sample before, string_key.beq_iff id k)

read_samples-sample_frames :
    (samples : Map String Sample) (start end : ℕ) (rest : List Frame) (m : Metrics)
    → Unique samples
    → Recovered samples start end rest m
unfolding read_samples sample_frames lookup
read_samples-sample_frames [] start end rest m u = record {
  result = record m { start_time = start; end_time = end };
  read_eq = refl;
  samples_eq = λ k. refl;
  start_eq = refl;
  end_eq = refl;
}
read_samples-sample_frames ((id, sample) ∷ samples) start end rest m u =
    let m1 = record m { metrics = insert id sample m.metrics } in
    let r = read_samples-sample_frames samples start end rest m1 u.1 in
    record {
      result = r.result;
      read_eq = r.read_eq;
      samples_eq = λ k. r.samples_eq k ∙ over-cons id sample samples m.metrics k u.0;
      start_eq = r.start_eq;
      end_eq = r.end_eq;
    }

over-nothing : (samples : Map String Sample) (k : String) → over samples [] k ≡ lookup k samples
unfolding lookup
over-nothing samples k = ground arith

populate_from_message-int :
    (n : ℕ) (frames : List Frame) (old : Metrics)
    → 0 < n
    → n < 2 ^ 31
    → populate_from_message (int (n % 2 ^ 32) ∷ frames) old ≡ read_samples n frames (clear old)
unfolding populate_from_message
populate_from_message-int n frames old positive short =
    let e : n % 2 ^ 32 ≡ n = omega arith in rw e (ground (arith, positive, short))

-- What sendAsMessage sends of an object with fewer than 2 ^ 31 products, each once,
-- populateFromMessage reads and leaves what follows: the samples are the same, and the times, too,
-- but those of an object with no product become 0.
pub populate_from_message-send_as_message :
    (m old : Metrics) (rest : List Frame)
    → Unique m.metrics
    → length m.metrics < 2 ^ 31
    → (t : Metrics) × (populate_from_message (send_as_message m ++ rest) old ≡ some (t, rest))
      × ((k : String) → lookup k t.metrics ≡ lookup k m.metrics)
      × (t.start_time ≡ (if is_empty m.metrics then 0 else m.start_time))
      × (t.end_time ≡ (if is_empty m.metrics then 0 else m.end_time))
unfolding populate_from_message send_as_message
populate_from_message-send_as_message m old rest u short = go m.metrics u short
  where
    go :
        (samples : Map String Sample)
        → Unique samples
        → length samples < 2 ^ 31
        → let m' = record m { metrics = samples } in
          (t : Metrics) × (populate_from_message (send_as_message m' ++ rest) old ≡ some (t, rest))
          × ((k : String) → lookup k t.metrics ≡ lookup k samples)
          × (t.start_time ≡ (if is_empty samples then 0 else m.start_time))
          × (t.end_time ≡ (if is_empty samples then 0 else m.end_time))
    go [] u short = (clear old, refl, λ k. refl, refl, refl)
    go (entry ∷ samples) u short =
        let r =
          read_samples-sample_frames (entry ∷ samples) m.start_time m.end_time rest (clear old) u in
        (
          r.result,
          populate_from_message-int (length (entry ∷ samples)) _ old (omega arith) short
              ∙ ap (λ fs. read_samples (length (entry ∷ samples)) fs (clear old))
                  (append_assoc (sample_frames (entry ∷ samples))
                    (uint64 m.start_time ∷ uint64 m.end_time ∷ []) rest)
              ∙ r.read_eq,
          λ k. r.samples_eq k ∙ over-nothing (entry ∷ samples) k,
          r.start_eq,
          r.end_eq,
        )
