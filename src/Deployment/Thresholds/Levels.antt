-- ===== src/Deployment/Thresholds/Levels.antt =====
-- The overall level of an analysis (core-runtime/src/deployment/thresholds.rs).
use gg_core.Prelude.{◌≡◌, ◌&&◌, ◌||◌, max, [], ◌∷◌, arith}
use gg_core.Deployment.Thresholds.{
  Floats, AlertLevel, none, warning, critical, auto_rollback, severity, max_level, is_none,
  triggers_rollback, StatisticalComparison, AnalysisThresholds, should_promote, should_rollback,
  analyze_thresholds, compute_error_level, compute_latency_level, compute_throughput_level,
}

rollback-max :
    (a b c : AlertLevel)
    → triggers_rollback (max_level (a ∷ b ∷ c ∷ []))
      ≡ (triggers_rollback a || triggers_rollback b || triggers_rollback c)
unfolding max_level triggers_rollback
rollback-max none b c = ground arith
rollback-max warning b c = ground arith
rollback-max critical b c = ground arith
rollback-max auto_rollback b c = ground arith

none-max :
    (a b c : AlertLevel)
    → is_none (max_level (a ∷ b ∷ c ∷ [])) ≡ (is_none a && is_none b && is_none c)
unfolding max_level is_none
none-max none b c = ground arith
none-max warning b c = ground arith
none-max critical b c = ground arith
none-max auto_rollback b c = ground arith

severity-max :
    (a b c : AlertLevel)
    → severity (max_level (a ∷ b ∷ c ∷ [])) ≡ max (severity a) (max (severity b) (severity c))
unfolding max_level
severity-max none b c = ground arith
severity-max warning b c = ground arith
severity-max critical b c = ground arith
severity-max auto_rollback b c = ground arith

module _ (f : Floats) where
  -- The overall level of an analysis is the most severe of its three levels. So it asks for a rollback
  -- exactly where one of them does, and for a promotion exactly where all of them are none.
  pub analyze_thresholds_lem :
      (c : StatisticalComparison f) (t : AnalysisThresholds f)
      → let r = analyze_thresholds f c t in
        (severity r.alert_level
          ≡ max
              (severity r.error_rate_level)
              (max (severity r.latency_level) (severity r.throughput_level)))
        × (should_rollback f r ≡ (
            triggers_rollback r.error_rate_level
            || triggers_rollback r.latency_level
            || triggers_rollback r.throughput_level))
        × (should_promote f r
            ≡ (is_none r.error_rate_level && is_none r.latency_level && is_none r.throughput_level))
  unfolding analyze_thresholds should_rollback should_promote
  analyze_thresholds_lem c t =
      let e = compute_error_level f c.error_rate_diff t.max_error_rate_increase in
      let l = compute_latency_level f c.latency_p99_ratio t.max_latency_p99_increase in
      let p = compute_throughput_level f c.throughput_ratio t.min_throughput_ratio in
      (severity-max e l p, rollback-max e l p, none-max e l p)
