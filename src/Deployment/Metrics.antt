-- ===== src/Deployment/Metrics.antt =====
-- core-runtime/src/deployment/metrics.rs: the window of samples of one version. Its percentiles and rates
-- are arithmetic on f64 and are not modelled.
use gg_core.Prelude.{ℕ, ◌+◌, ◌%◌, ◌^◌, List, [], ◌∷◌, ◌++◌, drop, length, leb, if◌then◌else◌}

abbrev u64 : ℕ
u64 = 2 ^ 64

pub record MetricsCollector : Type 0 where
  pub latencies : List ℕ
  pub success_count : ℕ
  pub error_count : ℕ
  pub window_start : ℕ
  pub max_samples : ℕ

unfoldable pub new_collector : ℕ → ℕ → MetricsCollector
new_collector now max_samples = record {
  latencies = [];
  success_count = 0;
  error_count = 0;
  window_start = now;
  max_samples = max_samples;
}

-- The oldest latency goes where the window is full.
abbrev pub push_latency : ℕ → MetricsCollector → MetricsCollector
push_latency latency m = record m {
  latencies =
      (if leb m.max_samples (length m.latencies) then drop 1 m.latencies else m.latencies)
      ++ latency ∷ [];
}

unfoldable pub record_success : ℕ → MetricsCollector → MetricsCollector
record_success latency m =
    push_latency latency (record m { success_count = (m.success_count + 1) % u64 })

unfoldable pub record_error : ℕ → MetricsCollector → MetricsCollector
record_error latency m = push_latency latency (record m { error_count = (m.error_count + 1) % u64 })

unfoldable pub reset : ℕ → MetricsCollector → MetricsCollector
reset now m = record m { latencies = []; success_count = 0; error_count = 0; window_start = now }
