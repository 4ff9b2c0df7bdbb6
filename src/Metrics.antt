-- ===== src/Metrics.antt =====
-- The counters of messages and bytes by data product (src/api/cpp/GravityMetrics.cpp). An int is
-- its 32 bits, read as a natural number, so that a sum wraps around.

pub mod Wire
pub mod Counts
mod Tests
use gravity.Prelude.{
  ℕ, zero, suc, ◌+◌, ◌-◌, ◌%◌, ◌^◌, String, Bool, true, false, ◌&&◌, List, [], ◌∷◌, ◌++◌, Option,
  none, some, ltb, length, is_empty, if◌then◌else◌, map,
}
use gravity.Prelude.Key.{string_key}
use gravity.Prelude.Maps.{Map, lookup, get_or, insert, erase}

-- struct MetricsSample
pub record Sample : Type 0 where
  pub message_count : ℕ
  pub byte_count : ℕ

-- class GravityMetrics
pub record Metrics : Type 0 where
  pub metrics : Map String Sample
  pub start_time : ℕ
  pub end_time : ℕ

-- metrics[dataProductID] makes a sample of zeros
abbrev pub zero_sample : Sample
zero_sample = record { message_count = 0; byte_count = 0 }

-- incrementMessageCount
unfoldable pub increment_message_count : String → ℕ → Metrics → Metrics
increment_message_count id count m =
    let old = get_or zero_sample id m.metrics in
    record m {
      metrics =
          insert id (record old { message_count = (old.message_count + count) % 2 ^ 32 }) m.metrics;
    }

-- incrementByteCount
unfoldable pub increment_byte_count : String → ℕ → Metrics → Metrics
increment_byte_count id count m =
    let old = get_or zero_sample id m.metrics in
    record m {
      metrics = insert id (record old { byte_count = (old.byte_count + count) % 2 ^ 32 }) m.metrics;
    }

unfoldable pub reset_samples : Map String Sample → Map String Sample
reset_samples [] = []
reset_samples ((id, sample) ∷ rest) = (id, zero_sample) ∷ reset_samples rest

-- reset, at the given time
unfoldable pub reset : ℕ → Metrics → Metrics
unfolding reset_samples
reset now m = record { metrics = reset_samples m.metrics; start_time = now; end_time = 0 }

-- clear
abbrev pub clear : Metrics → Metrics
clear m = record { metrics = []; start_time = 0; end_time = 0 }

-- remove
unfoldable pub remove : String → Metrics → Metrics
remove id m = record m { metrics = erase id m.metrics }

-- the int -1
abbrev pub no_count : ℕ
no_count = 2 ^ 32 - 1

-- getMessageCount
unfoldable pub get_message_count : String → Metrics → ℕ
get_message_count id m = elim (lookup id m.metrics) [
  | none ↦ no_count
  | some sample ↦ sample.message_count
]

-- getByteCount
unfoldable pub get_byte_count : String → Metrics → ℕ
get_byte_count id m = elim (lookup id m.metrics) [
  | none ↦ no_count
  | some sample ↦ sample.byte_count
]

-- getDataProductIDs
abbrev pub data_product_ids : Metrics → List String
data_product_ids m = map (λ entry. entry.0) m.metrics

-- done, at the given time
abbrev pub done : ℕ → Metrics → Metrics
done now m = record m { end_time = now }

-- the frames of a message, by the helper that sends or reads them
pub data Frame : Type 0 where
  text : String → Frame
  int : ℕ → Frame
  uint64 : ℕ → Frame

unfoldable pub sample_frames : Map String Sample → List Frame
sample_frames [] = []
sample_frames ((id, sample) ∷ rest) =
    text id ∷ int sample.message_count ∷ int sample.byte_count ∷ sample_frames rest

-- sendAsMessage
unfoldable pub send_as_message : Metrics → List Frame
unfolding sample_frames
send_as_message m =
    if is_empty m.metrics
    then int 0 ∷ []
    else int (length m.metrics % 2 ^ 32)
      ∷ (sample_frames m.metrics ++ uint64 m.start_time ∷ uint64 m.end_time ∷ [])

-- the samples, by the two assignments that each round makes, then the times; a frame of another
-- kind than the one to read, or a missing one, is none
unfoldable pub read_samples : ℕ → List Frame → Metrics → Option (Metrics × List Frame)
read_samples zero (uint64 start ∷ uint64 end ∷ rest) m =
    some (record m { start_time = start; end_time = end }, rest)
read_samples (suc n) (text id ∷ int messages ∷ int bytes ∷ rest) m = read_samples n rest (record m {
  metrics = insert id (record { message_count = messages; byte_count = bytes }) m.metrics;
})
read_samples n frames m = none

-- populateFromMessage: a size of 2 ^ 31 or more is a negative int
unfoldable pub populate_from_message : List Frame → Metrics → Option (Metrics × List Frame)
unfolding read_samples
populate_from_message (int size ∷ rest) m =
    if ltb 0 size && ltb size (2 ^ 31)
    then read_samples size rest (clear m)
    else some (clear m, rest)
populate_from_message frames m = none
