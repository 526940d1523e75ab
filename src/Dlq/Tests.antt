-- ===== src/Dlq/Tests.antt =====
-- A message whose body is no JSON.
use raider_worker.Samples.Messages.{garbage_message}
use raider_worker.Samples.Clock.{sample_times}
use raider_worker.Dlq.{publish_raw}
use raider_worker.Dlq.Loss.{publish_raw_exact, fate}
use raider_worker.Base.{[], pos, refl, text, ◌∷◌, ◌≡◌}

publish_raw_exact_example :
    publish_raw (pos 5) garbage_message (text "bad")
    ≡ fate (pos 5) garbage_message (text "bad") (43 ∷ 5 ∷ []) garbage_message.value
publish_raw_exact_example =
    publish_raw_exact (pos 5) garbage_message (text "bad") (43 ∷ 5 ∷ []) refl
