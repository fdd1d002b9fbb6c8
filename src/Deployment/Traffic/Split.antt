-- ===== src/Deployment/Traffic/Split.antt =====
-- A splitter gives each variant as many buckets as its weight
-- (core-runtime/src/ab_testing/traffic).
use gg_core.Prelude.{
  ℕ, ◌+◌, ◌-◌, ◌*◌, ◌%◌, ◌^◌, ◌≤◌, ◌<◌, ◌≡◌, ◌≢◌, refl, sym, ap, ◌∙◌, ◌⊎◌, inl, inr, Bool, true,
  false, Option, none, some, List, [], ◌∷◌, ◌++◌, length, All, String, Bool-cases, ltb, ◌==◌, arith,
}
use gg_core.Deployment.Traffic.{
  VariantLabel, TrafficConfig, invalid_weights, Result, ok, err, sum_u16, validate, TrafficSplitter,
  cumulative_from, split_by, new, hash_to_bucket, variant_loop, bucket_to_variant, bucket_of,
  select,
}

-- The sum of the weights.
abbrev pub total : List (VariantLabel × ℕ) → ℕ
total [] = 0
total ((l, w) ∷ ws) = w + total ws

abbrev pub IsU8 : VariantLabel × ℕ → Type 0
IsU8 x = x.1 < 256

total_le : (ws : List (VariantLabel × ℕ)) → All IsU8 ws → total ws ≤ length ws * 255
total_le [] h = omega arith
total_le ((l, w) ∷ ws) (small, h) = omega (arith, total_le ws h)

sum_u16-total : (ws : List (VariantLabel × ℕ)) → total ws < 2 ^ 16 → sum_u16 ws ≡ total ws
sum_u16-total [] h = refl
sum_u16-total ((l, w) ∷ ws) h = omega (arith, sum_u16-total ws (omega arith))

-- The bucket lies in the interval that an entry has behind the weights before it.
variant_loop-interval :
    (running b : ℕ) (before after : List (VariantLabel × ℕ)) (l : VariantLabel) (w : ℕ)
    → running + total (before ++ (l, w) ∷ after) < 256
    → running + total before ≤ b
    → b < running + total before + w
    → variant_loop b (cumulative_from running (before ++ (l, w) ∷ after)) ≡ some l
unfolding variant_loop cumulative_from
variant_loop-interval running b [] after l w fits low high = ground arith
variant_loop-interval running b ((l', w') ∷ before) after l w fits low high =
    let sum : (running + w') % 256 ≡ running + w' = omega arith in
    let rest =
      variant_loop-interval (running + w') b before after l w (omega arith) (omega arith)
        (omega arith) in
    ground (arith, sum, rest)

-- Every bucket below the total lies in the interval of an entry.
interval :
    (b : ℕ) (ws : List (VariantLabel × ℕ))
    → b < total ws
    → (before : List (VariantLabel × ℕ)) × (l : VariantLabel) × (w : ℕ) × (after : List
        (VariantLabel × ℕ))
      × (ws ≡ before ++ (l, w) ∷ after)
      × (total before ≤ b)
      × (b < total before + w)
interval b [] h = elim h [ ]
interval b ((l, w) ∷ ws) h = elim (Bool-cases (ltb b w)) [
  | inl here ↦ ([], l, w, ws, refl, omega arith, ground (arith, here))
  | inr later ↦
      let (before, l', w', after, e, low, high) = interval (b - w) ws (ground (arith, later)) in
      (
        (l, w) ∷ before,
        l',
        w',
        after,
        ap (λ xs. (l, w) ∷ xs) e,
        ground (arith, later, low),
        ground (arith, later, high),
      )
]

-- What a new splitter promises, or why there is none.
abbrev pub Splits : TrafficConfig → Result TrafficSplitter → Type 0
Splits config (ok s) =
    (total config.weights ≡ 100)
    × ((before after : List (VariantLabel × ℕ)) (l : VariantLabel) (w b : ℕ)
        → config.weights ≡ before ++ (l, w) ∷ after
        → total before ≤ b
        → b < total before + w
        → bucket_to_variant b s.cumulative ≡ some l)
    × ((hash : String → ℕ) (random : ℕ) (session_id : Option String)
        → random < 100
        → (before : List (VariantLabel × ℕ)) × (l : VariantLabel) × (w : ℕ) × (after : List
            (VariantLabel × ℕ))
          × (config.weights ≡ before ++ (l, w) ∷ after)
          × (0 < w)
          × (select hash random session_id s ≡ some l))
Splits config (err e) = (e ≡ invalid_weights (total config.weights)) × (total config.weights ≢ 100)

bucket_in :
    (b : ℕ) (ws : List (VariantLabel × ℕ)) (l : VariantLabel)
    → variant_loop b (cumulative_from 0 ws) ≡ some l
    → bucket_to_variant b (cumulative_from 0 ws) ≡ some l
unfolding bucket_to_variant
bucket_in b ws l h = rw (h, bucket_to_variant) refl

bucket_of_lt :
    (hash : String → ℕ) (random : ℕ) (sticky : Bool) (session_id : Option String)
    → random < 100
    → bucket_of hash random sticky session_id < 100
unfolding hash_to_bucket
bucket_of_lt hash random true (some sid) h = omega arith
bucket_of_lt hash random true none h = h
bucket_of_lt hash random false session_id h = h

splits :
    (config : TrafficConfig) (s : TrafficSplitter)
    → s.config ≡ config
    → s.cumulative ≡ cumulative_from 0 config.weights
    → total config.weights ≡ 100
    → Splits config (ok s)
unfolding select
splits config s same table sum = (
  sum,
  λ before after l w b e low high. at_table b e (
      bucket_in b (before ++ (l, w) ∷ after) l (
        variant_loop-interval 0 b before after l w (omega (arith, sum, ap total e))
          (omega (arith, low)) (omega (arith, high)))),
  λ hash random session_id h.
      let b = bucket_of hash random s.config.sticky_sessions session_id in
      let (before, l, w, after, e, low, high) =
        interval b config.weights
          (omega (arith, bucket_of_lt hash random s.config.sticky_sessions session_id h, sum)) in
      let found =
        variant_loop-interval 0 b before after l w (omega (arith, sum, ap total e))
          (omega (arith, low)) (omega (arith, high)) in
      (
        before,
        l,
        w,
        after,
        e,
        omega arith,
        at_table b e (bucket_in b (before ++ (l, w) ∷ after) l found),
      ),
)
  where
    at_table :
        (b : ℕ) {ws : List (VariantLabel × ℕ)} {l : VariantLabel}
        → config.weights ≡ ws
        → bucket_to_variant b (cumulative_from 0 ws) ≡ some l
        → bucket_to_variant b s.cumulative ≡ some l
    at_table b e h = ap (bucket_to_variant b) (table ∙ ap (cumulative_from 0) e) ∙ h

validate_lem :
    (config : TrafficConfig)
    → total config.weights < 2 ^ 16
    → ((validate config ≡ ok tt) × (total config.weights ≡ 100))
      ⊎ ((validate config ≡ err (invalid_weights (total config.weights)))
          × (total config.weights ≢ 100))
unfolding validate
validate_lem config small =
    let sum = sum_u16-total config.weights small in
    elim (Bool-cases (sum_u16 config.weights == 100)) [
      | inl good ↦ inl (rw good refl, ground (arith, good, sum))
      | inr bad ↦ inr (rw (bad, sum) refl, λ e. ground (arith, bad, sum, e))
    ]

split_by-Splits :
    (config : TrafficConfig) (ws : List (VariantLabel × ℕ))
    → config.weights ≡ ws
    → total config.weights ≡ 100
    → Splits config (split_by config ws)
split_by-Splits config [] e sum = absurd (omega (arith, sum, ap total e))
split_by-Splits config (x ∷ ws) e sum =
    splits config (record { config = config; cumulative = cumulative_from 0 (x ∷ ws) }) refl
      (ap (cumulative_from 0) (sym e)) sum

-- A configuration of at most 257 weights, each a byte, has a splitter exactly where the weights sum to
-- 100, and else the error tells their sum. The splitter gives a variant every bucket from the sum of
-- the weights before it on, as many as its own weight; and what it selects for any session, hash and
-- random bucket below 100 is a configured variant whose weight is not zero.
pub new-Splits :
    (config : TrafficConfig)
    → length config.weights ≤ 257
    → All IsU8 config.weights
    → Splits config (new config)
unfolding new
new-Splits config few small =
    let fits = total_le config.weights small in
    elim (validate_lem config (omega arith)) [
      | inl (e, sum) ↦ rw (e, new) (split_by-Splits config config.weights refl sum)
      | inr (e, ne) ↦ rw (e, new) (refl, ne)
    ]
