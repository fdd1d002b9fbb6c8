-- ===== src/Deployment/Canary.antt =====
-- core-runtime/src/deployment/canary.rs: the controller that moves traffic to a canary step by step.
-- `compare` stands for the comparison of two collectors, which is arithmetic on f64. Each call reads
-- the clock once.
pub mod Cycles
pub mod Weights
pub mod Tests
use gg_core.Prelude.{
  ℕ, ◌+◌, ◌-◌, ◌%◌, ◌^◌, Bool, true, false, ◌&&◌, not, Option, List, [], ◌∷◌, ◌++◌, drop, length,
  get_elem?, ltb, leb, if◌then◌else◌,
}
use gg_core.Prelude as P
use gg_core.Deployment.Metrics.{
  MetricsCollector, new_collector, record_success, record_error, reset,
}
use gg_core.Deployment.Thresholds.{
  Floats, AlertLevel, warning, StatisticalComparison, AnalysisThresholds, ThresholdResult, Reason,
  max_cycles_reached, should_promote, should_rollback, analyze_thresholds,
}

abbrev pub u64 : ℕ
u64 = 2 ^ 64

abbrev pub u32 : ℕ
u32 = 2 ^ 32

pub data CanaryPhase : Type 0 where
  initializing analyzing promoting rolling_back complete_phase failed : CanaryPhase
  progressing : ℕ → CanaryPhase

unfoldable pub is_terminal : CanaryPhase → Bool
is_terminal initializing = false
is_terminal (progressing weight) = false
is_terminal analyzing = false
is_terminal promoting = false
is_terminal rolling_back = false
is_terminal complete_phase = true
is_terminal failed = true

unfoldable pub allows_traffic : CanaryPhase → Bool
allows_traffic initializing = false
allows_traffic (progressing weight) = true
allows_traffic analyzing = true
allows_traffic promoting = false
allows_traffic rolling_back = false
allows_traffic complete_phase = false
allows_traffic failed = false

module _ (f : Floats) where
  open f use {F}

  pub record CanaryState : Type 0 where
    pub phase : CanaryPhase
    pub traffic_weight : ℕ
    pub analysis_cycles : ℕ
    pub last_result : Option (ThresholdResult f)
    pub started_at : ℕ
    pub phase_changed_at : ℕ

  pub record CanaryConfig : Type 0 where
    pub thresholds : AnalysisThresholds f
    pub weight_steps : List ℕ
    pub step_duration : ℕ
    pub max_duration : ℕ
    pub max_cycles : ℕ

  pub record CanaryController : Type 0 where
    pub config : CanaryConfig
    pub state : CanaryState
    pub canary_metrics : MetricsCollector
    pub stable_metrics : MetricsCollector
    pub current_step : ℕ

  pub data CanaryDecision : Type 0 where
    insufficient_data continue promote complete_decision timeout : CanaryDecision
    advance_to : ℕ → CanaryDecision
    rollback : Reason f → CanaryDecision

  unfoldable pub new : ℕ → CanaryConfig → CanaryController
  unfolding new_collector
  new now config = record {
    config = config;
    state = record {
      phase = initializing;
      traffic_weight = 0;
      analysis_cycles = 0;
      last_result = P.none;
      started_at = now;
      phase_changed_at = now;
    };
    canary_metrics = new_collector now 10000;
    stable_metrics = new_collector now 10000;
    current_step = 0;
  }

  unfoldable pub transition_to : ℕ → CanaryPhase → CanaryController → CanaryController
  transition_to now phase c = record c {
    state = record c.state { phase = phase; phase_changed_at = now };
  }

  -- The step's weight, which is there where the step is below the number of steps.
  unfoldable pub advance_weight : ℕ → CanaryController → CanaryController
  unfolding reset
  advance_weight now c = elim (get_elem? c.config.weight_steps c.current_step) [
    | P.none ↦ c
    | P.some weight ↦ record c {
      state = record c.state { traffic_weight = weight };
      current_step = c.current_step + 1;
      canary_metrics = reset now c.canary_metrics;
      stable_metrics = reset now c.stable_metrics;
    }
  ]

  -- current_step < weight_steps.len() - 1, where the difference wraps around
  unfoldable pub can_advance_weight : CanaryController → Bool
  can_advance_weight c = ltb c.current_step ((length c.config.weight_steps + (u64 - 1)) % u64)

  unfoldable pub start : ℕ → CanaryController → CanaryController
  unfolding advance_weight transition_to
  start now c = advance_weight now (transition_to now (progressing 0) c)

  abbrev pub record_into : ℕ → Bool → MetricsCollector → MetricsCollector
  record_into latency true m = record_success latency m
  record_into latency false m = record_error latency m

  unfoldable pub record_canary : ℕ → Bool → CanaryController → CanaryController
  record_canary latency success c = record c {
    canary_metrics = record_into latency success c.canary_metrics;
  }

  unfoldable pub record_stable : ℕ → Bool → CanaryController → CanaryController
  record_stable latency success c = record c {
    stable_metrics = record_into latency success c.stable_metrics;
  }

  unfoldable pub complete : ℕ → CanaryController → CanaryController
  unfolding transition_to
  complete now c =
      let d = transition_to now complete_phase c in
      record d { state = record d.state { traffic_weight = 100 } }

  unfoldable pub fail : ℕ → CanaryController → CanaryController
  unfolding transition_to
  fail now c =
      let d = transition_to now failed c in
      record d { state = record d.state { traffic_weight = 0 } }

  unfoldable pub has_sufficient_samples : CanaryController → Bool
  has_sufficient_samples c =
      leb c.config.thresholds.min_sample_size (length c.canary_metrics.latencies)
      && leb c.config.thresholds.min_sample_size (length c.stable_metrics.latencies)

  -- result.alert_level == AlertLevel::Warning
  abbrev pub is_warning : AlertLevel → Bool
  is_warning AlertLevel.none = false
  is_warning AlertLevel.warning = true
  is_warning AlertLevel.critical = false
  is_warning AlertLevel.auto_rollback = false

  abbrev pub promote_at : ℕ → CanaryController → CanaryDecision × CanaryController
  promote_at now c = (promote, transition_to now promoting c)

  unfoldable pub make_decision :
      ℕ → ThresholdResult f → CanaryController → CanaryDecision × CanaryController
  unfolding should_rollback should_promote can_advance_weight
  make_decision now result c =
      if should_rollback f result
      then (rollback result.reason, transition_to now rolling_back c)
      else if should_promote f result
      then if can_advance_weight c
        then (advance_to (advance_weight now c).state.traffic_weight, advance_weight now c)
        else promote_at now c
      else if leb c.config.max_cycles c.state.analysis_cycles
      then if is_warning result.alert_level
        then promote_at now c
        else (rollback max_cycles_reached, transition_to now rolling_back c)
      else (continue, c)

  -- What is judged, and that it is counted.
  abbrev pub judged : ThresholdResult f → CanaryController → CanaryController
  judged result c = record c {
    state = record c.state {
      last_result = P.some result;
      analysis_cycles = (c.state.analysis_cycles + 1) % u32;
    };
  }

  module _ (compare : MetricsCollector → MetricsCollector → F → StatisticalComparison f) where
    abbrev pub result_of : CanaryController → ThresholdResult f
    result_of c =
        analyze_thresholds f
          (compare c.canary_metrics c.stable_metrics c.config.thresholds.confidence_level)
          c.config.thresholds

    unfoldable pub analyze : ℕ → CanaryController → CanaryDecision × CanaryController
    unfolding is_terminal make_decision has_sufficient_samples
    analyze now c =
        if is_terminal c.state.phase
        then (complete_decision, c)
        else if ltb c.config.max_duration (now - c.state.started_at)
        then (timeout, transition_to now failed c)
        else if not (has_sufficient_samples c)
        then (insufficient_data, c)
        else make_decision now (result_of c) (judged (result_of c) c)

  -- The calls of a controller.
  pub data Call : Type 0 where
    start_call analyze_call complete_call fail_call : Call
    canary_sample stable_sample : ℕ → Bool → Call

  module _ (compare : MetricsCollector → MetricsCollector → F → StatisticalComparison f) where
    -- The decision of a call, where it makes one, and the controller.
    unfoldable pub call : ℕ → Call → CanaryController → Option CanaryDecision × CanaryController
    unfolding analyze start complete fail record_canary record_stable
    call now start_call c = (P.none, start now c)
    call now analyze_call c = let (decision, d) = analyze compare now c in (P.some decision, d)
    call now complete_call c = (P.none, complete now c)
    call now fail_call c = (P.none, fail now c)
    call now (canary_sample latency success) c = (P.none, record_canary latency success c)
    call now (stable_sample latency success) c = (P.none, record_stable latency success c)

    -- The decisions of calls at their times, the first one first, and the controller at the end.
    unfoldable pub run :
        List (ℕ × Call) → CanaryController → List (Option CanaryDecision) × CanaryController
    unfolding call
    run [] c = ([], c)
    run ((now, k) ∷ ks) c =
        let (decision, d) = call now k c in let (rest, e) = run ks d in (decision ∷ rest, e)
