-- ===== src/Deployment/Canary/Tests.antt =====
-- A canary of two steps that is judged by numbers of thousandths.
use gg_core.Prelude.{
  ℕ, ◌+◌, ◌-◌, ◌*◌, ◌/◌, ◌≤◌, ◌≡◌, refl, max, true, List, [], ◌∷◌, ltb, leb, arith,
}
use gg_core.Deployment.Metrics as Metrics
use gg_core.Deployment.Metrics.{MetricsCollector}
use gg_core.Deployment.Thresholds.{
  Floats, StatisticalComparison, AnalysisThresholds, analyze_thresholds,
}
use gg_core.Deployment.Canary.{
  CanaryConfig, Call, start_call, analyze_call, canary_sample, stable_sample, new, run,
}
use gg_core.Deployment.Canary.Cycles.{continues, continues_bounded}
use gg_core.Deployment.Canary.Weights.{IsOnTrack, run-new-IsOnTrack}

abbrev thousandths : Floats
thousandths = record {
  F = ℕ;
  zero_f = 0;
  one = 1000;
  half = 500;
  four_fifths = 800;
  fifth = 200;
  add = ◌+◌;
  sub = ◌-◌;
  mul = λ a b. a * b / 1000;
  lt = ltb;
  le = leb;
}

-- A canary with a slightly higher rate of errors.
abbrev slightly_worse : StatisticalComparison thousandths
slightly_worse = record {
  error_rate_diff = 7;
  latency_p99_ratio = 1000;
  throughput_ratio = 1000;
  confidence = 1000;
  is_significant = true;
}

abbrev limits : AnalysisThresholds thousandths
limits = record {
  max_error_rate_increase = 10;
  max_latency_p99_increase = 1200;
  min_throughput_ratio = 900;
  min_sample_size = 1;
  confidence_level = 950;
  analysis_window = 300;
}

abbrev two_steps : CanaryConfig thousandths
two_steps = record {
  thresholds = limits;
  weight_steps = 5 ∷ 100 ∷ [];
  step_duration = 10;
  max_duration = 1000;
  max_cycles = 3;
}

abbrev worse : MetricsCollector → MetricsCollector → ℕ → StatisticalComparison thousandths
worse canary stable confidence = slightly_worse

abbrev calls : List (ℕ × Call thousandths)
calls =
    (1, start_call)
    ∷ (2, canary_sample 40 true)
    ∷ (3, stable_sample 30 true)
    ∷ (4, analyze_call)
    ∷ (5, analyze_call)
    ∷ (6, analyze_call)
    ∷ []

two_continue :
    continues thousandths (run thousandths worse calls (new thousandths 0 two_steps)).0 ≡ 2
unfolding run new Metrics.record_success analyze_thresholds
two_continue = refl

continues_bounded_example :
    continues thousandths (run thousandths worse calls (new thousandths 0 two_steps)).0 + 1
    ≤ max 3 1
continues_bounded_example = continues_bounded thousandths worse 0 two_steps calls (omega arith)

run-new-IsOnTrack_example :
    IsOnTrack thousandths two_steps (run thousandths worse calls (new thousandths 0 two_steps)).1
run-new-IsOnTrack_example = run-new-IsOnTrack thousandths two_steps worse 0 calls
