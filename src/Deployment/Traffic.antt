-- ===== src/Deployment/Traffic.antt =====
-- core-runtime/src/ab_testing/traffic (bucket.rs, config.rs, mod.rs): the splitting of requests by the
-- weights of variants. The weights are the entries of the BTreeMap in its order. The hash of a session
-- id and the random bucket are arguments.
pub mod Split
pub mod Tests
use gg_core.Prelude.{
  ℕ, ◌+◌, ◌%◌, ◌^◌, Bool, true, false, Option, none, some, List, [], ◌∷◌, get_last?, ltb, ◌==◌,
  String, if◌then◌else◌,
}

-- A variant label, which the source wraps in a struct.
abbrev pub VariantLabel : Type 0
VariantLabel = String

pub record TrafficConfig : Type 0 where
  pub weights : List (VariantLabel × ℕ)
  pub sticky_sessions : Bool

pub data TrafficError : Type 0 where
  invalid_weights : ℕ → TrafficError
  no_variants : TrafficError

pub data Result (A : Type 0) : Type 0 where
  ok : A → Result A
  err : TrafficError → Result A

abbrev pub control : VariantLabel
control = "control"

abbrev pub treatment : VariantLabel
treatment = "treatment"

unfoldable pub even_split : TrafficConfig
even_split = record { weights = (control, 50) ∷ (treatment, 50) ∷ []; sticky_sessions = true }

-- The sum of the weights as u16.
abbrev pub sum_u16 : List (VariantLabel × ℕ) → ℕ
sum_u16 [] = 0
sum_u16 ((l, w) ∷ ws) = (w + sum_u16 ws) % 2 ^ 16

unfoldable pub validate : TrafficConfig → Result (Unit {0})
validate config =
    let total = sum_u16 config.weights in
    if total == 100 then ok tt else err (invalid_weights total)

pub record TrafficSplitter : Type 0 where
  pub config : TrafficConfig
  pub cumulative : List (VariantLabel × ℕ)

-- The labels with the running total of the weights, as u8.
unfoldable pub cumulative_from : ℕ → List (VariantLabel × ℕ) → List (VariantLabel × ℕ)
cumulative_from running_total [] = []
cumulative_from running_total ((l, w) ∷ ws) =
    (l, (running_total + w) % 256) ∷ cumulative_from ((running_total + w) % 256) ws

abbrev pub split_by : TrafficConfig → List (VariantLabel × ℕ) → Result TrafficSplitter
split_by config [] = err no_variants
split_by config (x ∷ ws) = ok (record { config = config; cumulative = cumulative_from 0 (x ∷ ws) })

unfoldable pub new : TrafficConfig → Result TrafficSplitter
unfolding validate cumulative_from
new config = elim (validate config) [ err e ↦ err e | ok _ ↦ split_by config config.weights ]

-- hasher.finish() % 100
unfoldable pub hash_to_bucket : (String → ℕ) → String → ℕ
hash_to_bucket hash session_id = hash session_id % 100

-- The loop: the first label whose threshold is above the bucket.
unfoldable pub variant_loop : ℕ → List (VariantLabel × ℕ) → Option VariantLabel
variant_loop bucket [] = none
variant_loop bucket ((label, threshold) ∷ cs) =
    let rest = variant_loop bucket cs in if ltb bucket threshold then some label else rest

-- none where the source would panic, on an empty list.
unfoldable pub bucket_to_variant : ℕ → List (VariantLabel × ℕ) → Option VariantLabel
unfolding variant_loop
bucket_to_variant bucket cumulative = elim (variant_loop bucket cumulative) [
  | some label ↦ some label
  | none ↦ elim (get_last? cumulative) [ none ↦ none | some (label, t) ↦ some label ]
]

abbrev pub bucket_of : (String → ℕ) → ℕ → Bool → Option String → ℕ
bucket_of hash random true (some sid) = hash_to_bucket hash sid
bucket_of hash random true none = random
bucket_of hash random false session_id = random

unfoldable pub select : (String → ℕ) → ℕ → Option String → TrafficSplitter → Option VariantLabel
unfolding hash_to_bucket bucket_to_variant
select hash random session_id s =
    bucket_to_variant (bucket_of hash random s.config.sticky_sessions session_id) s.cumulative
