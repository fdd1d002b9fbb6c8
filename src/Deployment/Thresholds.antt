-- ===== src/Deployment/Thresholds.antt =====
-- core-runtime/src/deployment/thresholds.rs: how a comparison of a canary with the stable version is
-- judged. f64 is a parameter with the constants and operations that the code uses; the text of a reason
-- is kept as the list of its parts.
pub mod Levels
use gg_core.Prelude.{ℕ, Bool, true, false, ◌&&◌, ◌||◌, not, List, [], ◌∷◌, ◌++◌, leb, if◌then◌else◌}

pub record Floats : Type 1 where
  pub F : Type 0
  pub zero_f : F
  pub one : F
  pub half : F
  pub four_fifths : F
  pub fifth : F
  pub add : F → F → F
  pub sub : F → F → F
  pub mul : F → F → F
  pub lt : F → F → Bool
  pub le : F → F → Bool

pub data AlertLevel : Type 0 where
  none warning critical auto_rollback : AlertLevel

unfoldable pub requires_action : AlertLevel → Bool
requires_action none = false
requires_action warning = false
requires_action critical = true
requires_action auto_rollback = true

unfoldable pub triggers_rollback : AlertLevel → Bool
triggers_rollback none = false
triggers_rollback warning = false
triggers_rollback critical = false
triggers_rollback auto_rollback = true

-- level == AlertLevel::None
unfoldable pub is_none : AlertLevel → Bool
is_none none = true
is_none warning = false
is_none critical = false
is_none auto_rollback = false

-- The key of the maximum.
abbrev pub severity : AlertLevel → ℕ
severity none = 0
severity warning = 1
severity critical = 2
severity auto_rollback = 3

-- max_by_key: of equal levels the later one.
abbrev pub max_from : AlertLevel → List AlertLevel → AlertLevel
max_from best [] = best
max_from best (l ∷ ls) = max_from (if leb (severity best) (severity l) then l else best) ls

unfoldable pub max_level : List AlertLevel → AlertLevel
max_level [] = none
max_level (l ∷ ls) = max_from l ls

module _ (f : Floats) where
  open f use {F, zero_f, one, half, four_fifths, fifth, add, sub, mul, lt, le}

  pub record StatisticalComparison : Type 0 where
    pub error_rate_diff : F
    pub latency_p99_ratio : F
    pub throughput_ratio : F
    pub confidence : F
    pub is_significant : Bool

  pub record AnalysisThresholds : Type 0 where
    pub max_error_rate_increase : F
    pub max_latency_p99_increase : F
    pub min_throughput_ratio : F
    pub min_sample_size : ℕ
    pub confidence_level : F
    pub analysis_window : ℕ

  pub data ReasonPart : Type 0 where
    error_rate p99_latency throughput : F → ReasonPart

  -- The parts of a reason, or the text of a decision.
  pub data Reason : Type 0 where
    within_thresholds max_cycles_reached : Reason
    parts : List ReasonPart → Reason

  pub record ThresholdResult : Type 0 where
    pub alert_level : AlertLevel
    pub error_rate_level : AlertLevel
    pub latency_level : AlertLevel
    pub throughput_level : AlertLevel
    pub reason : Reason

  unfoldable pub should_promote : ThresholdResult → Bool
  unfolding is_none
  should_promote r = is_none r.alert_level

  unfoldable pub should_rollback : ThresholdResult → Bool
  unfolding triggers_rollback
  should_rollback r = triggers_rollback r.alert_level

  unfoldable pub should_continue : ThresholdResult → Bool
  unfolding should_promote should_rollback
  should_continue r = not (should_promote r) && not (should_rollback r)

  unfoldable pub compute_error_level : F → F → AlertLevel
  compute_error_level diff max_increase =
      if le diff zero_f || lt diff (mul max_increase half)
      then none
      else if lt diff (mul max_increase four_fifths)
      then warning
      else if lt diff max_increase
      then critical
      else auto_rollback

  unfoldable pub compute_latency_level : F → F → AlertLevel
  compute_latency_level ratio max_ratio =
      let excess = sub ratio one in
      let threshold_excess = sub max_ratio one in
      if le excess zero_f || lt excess (mul threshold_excess half)
      then none
      else if lt excess (mul threshold_excess four_fifths)
      then warning
      else if lt excess threshold_excess
      then critical
      else auto_rollback

  unfoldable pub compute_throughput_level : F → F → AlertLevel
  compute_throughput_level ratio min_ratio =
      if le one ratio || lt (add min_ratio (mul (sub one min_ratio) half)) ratio
      then none
      else if lt (add min_ratio (mul (sub one min_ratio) fifth)) ratio
      then warning
      else if lt min_ratio ratio
      then critical
      else auto_rollback

  abbrev pub part_of : AlertLevel → ReasonPart → List ReasonPart
  part_of level p = if is_none level then [] else p ∷ []

  abbrev pub joined : List ReasonPart → Reason
  joined [] = within_thresholds
  joined (p ∷ ps) = parts (p ∷ ps)

  unfoldable pub build_reason :
      AlertLevel → AlertLevel → AlertLevel → StatisticalComparison → Reason
  build_reason error latency throughput_level c = joined (
      part_of error (error_rate c.error_rate_diff)
      ++ (part_of latency (p99_latency c.latency_p99_ratio)
          ++ part_of throughput_level (throughput c.throughput_ratio)))

  unfoldable pub analyze_thresholds : StatisticalComparison → AnalysisThresholds → ThresholdResult
  unfolding compute_error_level compute_latency_level compute_throughput_level max_level
      build_reason
  analyze_thresholds c t =
      let error_rate_level = compute_error_level c.error_rate_diff t.max_error_rate_increase in
      let latency_level = compute_latency_level c.latency_p99_ratio t.max_latency_p99_increase in
      let throughput_level = compute_throughput_level c.throughput_ratio t.min_throughput_ratio in
      record {
        alert_level = max_level (error_rate_level ∷ latency_level ∷ throughput_level ∷ []);
        error_rate_level = error_rate_level;
        latency_level = latency_level;
        throughput_level = throughput_level;
        reason = build_reason error_rate_level latency_level throughput_level c;
      }
