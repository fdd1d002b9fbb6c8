-- ===== src/Deployment/Traffic/Tests.antt =====
-- The even split, and a canary of a tenth.
use gg_core.Prelude.{◌≡◌, refl, some, [], ◌∷◌, true, arith}
use gg_core.Deployment.Traffic.{TrafficConfig, control, new, cumulative_from, bucket_to_variant}
use gg_core.Deployment.Traffic.Split.{Splits, new-Splits}

abbrev canary : TrafficConfig
canary = record { weights = ("canary", 10) ∷ (control, 90) ∷ []; sticky_sessions = true }

bucket_ten : bucket_to_variant 10 (cumulative_from 0 canary.weights) ≡ some control
unfolding bucket_to_variant cumulative_from
bucket_ten = refl

new-Splits_example : Splits canary (new canary)
new-Splits_example = new-Splits canary (omega arith) (omega arith)
