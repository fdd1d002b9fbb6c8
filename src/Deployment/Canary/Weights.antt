-- ===== src/Deployment/Canary/Weights.antt =====
-- The traffic that a canary gets is that of its steps (core-runtime/src/deployment/canary.rs).
use gg_core.Prelude.{
  ℕ, ◌+◌, ◌-◌, ◌≤◌, ◌<◌, ◌≡◌, ◌≢◌, refl, sym, ap, subst, ◌∙◌, ◌⊎◌, inl, inr, Bool, true, false,
  List, [], ◌∷◌, length, get_elem?, get_elem?-lt, ltb, leb, Bool-cases, Option-cases, arith,
}
use gg_core.Prelude as P
use gg_core.Deployment.Metrics.{MetricsCollector}
use gg_core.Deployment.Thresholds.{
  Floats, StatisticalComparison, ThresholdResult, should_rollback, should_promote,
}
use gg_core.Deployment.Canary.{
  is_terminal, complete_phase, failed, promoting, rolling_back, progressing, CanaryPhase,
  CanaryConfig, CanaryController, new, transition_to, advance_weight, can_advance_weight, start,
  record_canary, record_stable, complete, fail, has_sufficient_samples, make_decision, judged,
  is_warning, result_of, analyze, Call, start_call, analyze_call, complete_call, fail_call,
  canary_sample, stable_sample, call, run,
}

module _ (f : Floats) where
  open f use {F}

  -- The weight is none, all, or that of the step reached last; a completed canary has all.
  pub record IsOnTrack (config : CanaryConfig f) (c : CanaryController f) : Type 0 where
    pub same : c.config ≡ config
    pub in_steps : c.current_step ≤ length config.weight_steps
    pub weight :
        ((c.state.traffic_weight ≡ 0) ⊎ (c.state.traffic_weight ≡ 100))
        ⊎ ((i : ℕ) × (c.current_step ≡ i + 1)
            × (get_elem? config.weight_steps i ≡ P.some c.state.traffic_weight))
    pub all : c.state.phase ≡ complete_phase → c.state.traffic_weight ≡ 100

  module _ (config : CanaryConfig f) where
    transition_to-IsOnTrack :
        (now : ℕ) (phase : CanaryPhase) (c : CanaryController f)
        → phase ≢ complete_phase
        → IsOnTrack config c
        → IsOnTrack config (transition_to f now phase c)
    unfolding transition_to
    transition_to-IsOnTrack now phase c ne t = record {
      same = t.same;
      in_steps = t.in_steps;
      weight = t.weight;
      all = λ e. absurd (ne e);
    }

    advance_weight-IsOnTrack :
        (now : ℕ) (c : CanaryController f)
        → c.state.phase ≢ complete_phase
        → IsOnTrack config c
        → IsOnTrack config (advance_weight f now c)
    unfolding advance_weight
    advance_weight-IsOnTrack now c ne t =
        elim (Option-cases (get_elem? c.config.weight_steps c.current_step)) [
          | inl e ↦ rw (e, advance_weight) t
          | inr (w, e) ↦
              let there = ap (λ x. get_elem? x.weight_steps c.current_step) (sym t.same) ∙ e in
              let below = get_elem?-lt config.weight_steps c.current_step w there in
              rw (e, advance_weight)
                (record {
                  same = t.same;
                  in_steps = omega (arith, below);
                  weight = inr (c.current_step, refl, there);
                  all = λ p. absurd (ne p);
                })
        ]

    make_decision-IsOnTrack :
        (now : ℕ) (r : ThresholdResult f) (c : CanaryController f)
        → c.state.phase ≢ complete_phase
        → IsOnTrack config c
        → IsOnTrack config (make_decision f now r c).1
    unfolding make_decision
    make_decision-IsOnTrack now r c ne t = elim (Bool-cases (should_rollback f r)) [
      | inl back ↦ rw (back, make_decision) (transition_to-IsOnTrack now rolling_back c (λ e. cc) t)
      | inr stay ↦ elim (Bool-cases (should_promote f r)) [
        | inl good ↦ elim (Bool-cases (can_advance_weight f c)) [
          | inl more ↦ rw (stay, good, more, make_decision) (advance_weight-IsOnTrack now c ne t)
          | inr last ↦
              rw (stay, good, last, make_decision)
                (transition_to-IsOnTrack now promoting c (λ e. cc) t)
        ]
        | inr bad ↦ elim (Bool-cases (leb c.config.max_cycles c.state.analysis_cycles)) [
          | inl over ↦ elim (Bool-cases (is_warning f r.alert_level)) [
            | inl warn ↦
                rw (stay, bad, over, warn, make_decision)
                  (transition_to-IsOnTrack now promoting c (λ e. cc) t)
            | inr crit ↦
                rw (stay, bad, over, crit, make_decision)
                  (transition_to-IsOnTrack now rolling_back c (λ e. cc) t)
          ]
          | inr under ↦ rw (stay, bad, under, make_decision) t
        ]
      ]
    ]

    running_ne : (phase : CanaryPhase) → is_terminal phase ≡ false → phase ≢ complete_phase
    unfolding is_terminal
    running_ne phase h e = cc (h, ap is_terminal e)

    module _ (compare : MetricsCollector → MetricsCollector → F → StatisticalComparison f) where
      analyze-IsOnTrack :
          (now : ℕ) (c : CanaryController f)
          → IsOnTrack config c
          → IsOnTrack config (analyze f compare now c).1
      unfolding analyze
      analyze-IsOnTrack now c t = elim (Bool-cases (is_terminal c.state.phase)) [
        | inl over ↦ rw (over, analyze) t
        | inr runs ↦ elim (Bool-cases (ltb c.config.max_duration (now - c.state.started_at))) [
          | inl late ↦ rw (runs, late, analyze) (transition_to-IsOnTrack now failed c (λ e. cc) t)
          | inr timely ↦ elim (Bool-cases (has_sufficient_samples f c)) [
            | inr few ↦ rw (runs, timely, few, analyze) t
            | inl many ↦
                let r = result_of f compare c in
                rw (runs, timely, many, analyze)
                  (make_decision-IsOnTrack now r (judged f r c) (running_ne c.state.phase runs)
                    (record {
                      same = t.same;
                      in_steps = t.in_steps;
                      weight = t.weight;
                      all = t.all;
                    }))
          ]
        ]
      ]

      call-IsOnTrack :
          (now : ℕ) (k : Call f) (c : CanaryController f)
          → IsOnTrack config c
          → IsOnTrack config (call f compare now k c).1
      unfolding call start complete fail record_canary record_stable transition_to
      call-IsOnTrack now start_call c t =
          advance_weight-IsOnTrack now (transition_to f now (progressing 0) c) (λ e. cc)
            (transition_to-IsOnTrack now (progressing 0) c (λ e. cc) t)
      call-IsOnTrack now analyze_call c t = analyze-IsOnTrack now c t
      call-IsOnTrack now complete_call c t = record {
        same = t.same;
        in_steps = t.in_steps;
        weight = inl (inr refl);
        all = λ e. refl;
      }
      call-IsOnTrack now fail_call c t = record {
        same = t.same;
        in_steps = t.in_steps;
        weight = inl (inl refl);
        all = λ e. cc;
      }
      call-IsOnTrack now (canary_sample latency success) c t = record {
        same = t.same;
        in_steps = t.in_steps;
        weight = t.weight;
        all = t.all;
      }
      call-IsOnTrack now (stable_sample latency success) c t = record {
        same = t.same;
        in_steps = t.in_steps;
        weight = t.weight;
        all = t.all;
      }

      run-IsOnTrack :
          (ks : List (ℕ × Call f)) (c : CanaryController f)
          → IsOnTrack config c
          → IsOnTrack config (run f compare ks c).1
      unfolding run
      run-IsOnTrack [] c t = t
      run-IsOnTrack ((now, k) ∷ ks) c t =
          run-IsOnTrack ks (call f compare now k c).1 (call-IsOnTrack now k c t)

      -- After any calls of a new controller, whatever the samples, the clock and the comparison, the
      -- configuration is as given, the steps reached are at most its weight steps, and the traffic
      -- weight is 0, 100 or that of the step reached last; in the completed phase it is 100.
      pub run-new-IsOnTrack :
          (now : ℕ) (ks : List (ℕ × Call f))
          → IsOnTrack config (run f compare ks (new f now config)).1
      unfolding new
      run-new-IsOnTrack now ks =
          run-IsOnTrack ks (new f now config)
            (record { same = refl; in_steps = omega arith; weight = inl (inl refl); all = λ e. cc })
