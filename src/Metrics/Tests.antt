-- ===== src/Metrics/Tests.antt =====
-- Two products that are counted, reset, and sent.
use gravity.Prelude.{◌≡◌, refl, String, [], ◌∷◌, ◌++◌, some, is_empty, if◌then◌else◌, arith}
use gravity.Prelude.Key.{string_key}
use gravity.Prelude.Maps.{lookup}
use gravity.Prelude.Unique.{Unique}
use gravity.Metrics.{Metrics, text, send_as_message, populate_from_message, clear}
use gravity.Metrics.Wire.{populate_from_message-send_as_message}

abbrev sampled : Metrics
sampled = record {
  metrics =
      ("Depth", record { message_count = 2; byte_count = 64 })
      ∷ ("Image", record { message_count = 7; byte_count = 4096 })
      ∷ [];
  start_time = 1_000_000;
  end_time = 2_000_000;
}

sampled-Unique : Unique sampled.metrics
unfolding lookup
sampled-Unique = (refl, (refl, tt))

populate_from_message-send_as_message_example :
    (t : Metrics) × (populate_from_message
        (send_as_message sampled ++ text "next" ∷ [])
        (clear sampled)
      ≡ some (t, text "next" ∷ []))
    × ((k : String) → lookup k t.metrics ≡ lookup k sampled.metrics)
    × (t.start_time ≡ (if is_empty sampled.metrics then 0 else 1_000_000))
    × (t.end_time ≡ (if is_empty sampled.metrics then 0 else 2_000_000))
populate_from_message-send_as_message_example =
    populate_from_message-send_as_message sampled (clear sampled) (text "next" ∷ []) sampled-Unique
      (omega arith)
