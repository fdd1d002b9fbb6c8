-- ===== src/Deployment/Canary/Cycles.antt =====
-- A canary does not stay undecided (core-runtime/src/deployment/canary.rs).
use gg_core.Prelude.{
  ℕ, suc, ◌+◌, ◌-◌, ◌%◌, ◌^◌, ◌≤◌, ◌<◌, ◌≡◌, refl, sym, ap, subst, ◌∙◌, ◌⊎◌, inl, inr, max, Bool,
  true, false, not, Option, List, [], ◌∷◌, length, get_elem?, ltb, leb, Bool-cases, Option-cases,
  arith,
}
use gg_core.Prelude as P
use gg_core.Deployment.Metrics.{MetricsCollector}
use gg_core.Deployment.Thresholds.{
  Floats, StatisticalComparison, ThresholdResult, should_rollback, should_promote,
}
use gg_core.Deployment.Canary.{
  u32, is_terminal, CanaryConfig, CanaryController, CanaryDecision, insufficient_data, continue,
  promote, complete_decision, timeout, advance_to, rollback, new, transition_to, advance_weight,
  can_advance_weight, start, record_canary, record_stable, complete, fail, has_sufficient_samples,
  make_decision, progressing, judged, is_warning, result_of, analyze, Call, start_call,
  analyze_call, complete_call, fail_call, canary_sample, stable_sample, call, run,
}

module _ (f : Floats) where
  open f use {F}

  abbrev pub is_continue : Option (CanaryDecision f) → Bool
  is_continue P.none = false
  is_continue (P.some insufficient_data) = false
  is_continue (P.some continue) = true
  is_continue (P.some promote) = false
  is_continue (P.some complete_decision) = false
  is_continue (P.some timeout) = false
  is_continue (P.some (advance_to weight)) = false
  is_continue (P.some (rollback reason)) = false

  abbrev pub continues : List (Option (CanaryDecision f)) → ℕ
  continues [] = 0
  continues (d ∷ ds) = (P.if◌then◌else◌ (is_continue d) 1 0) + continues ds

  -- A step keeps the configuration, and counts at most one cycle, or exactly one below the limit if the
  -- decision is to continue.
  record Counts (c : CanaryController f) (d : Option (CanaryDecision f)) (c' : CanaryController f)
      : Type 0 where
    same : c'.config ≡ c.config
    least : c.state.analysis_cycles ≤ c'.state.analysis_cycles
    most : c'.state.analysis_cycles ≤ c.state.analysis_cycles + 1
    counted :
        is_continue d ≡ true
        → (c'.state.analysis_cycles ≡ c.state.analysis_cycles + 1)
          × (c'.state.analysis_cycles < c.config.max_cycles)

  -- A step that keeps both and is no decision to continue.
  unchanged :
      (c c' : CanaryController f) (d : Option (CanaryDecision f))
      → c'.config ≡ c.config
      → c'.state.analysis_cycles ≡ c.state.analysis_cycles
      → is_continue d ≡ false
      → Counts c d c'
  unchanged c c' d same cycles no_more = record {
    same = same;
    least = omega (arith, cycles);
    most = omega (arith, cycles);
    counted = λ h. cc (h, no_more);
  }

  advance_weight-same :
      (now : ℕ) (c : CanaryController f)
      → ((advance_weight f now c).config ≡ c.config)
        × ((advance_weight f now c).state.analysis_cycles ≡ c.state.analysis_cycles)
  unfolding advance_weight
  advance_weight-same now c = elim (Option-cases (get_elem? c.config.weight_steps c.current_step)) [
    | inl e ↦ rw (e, advance_weight) (refl, refl)
    | inr (w, e) ↦ rw (e, advance_weight) (refl, refl)
  ]

  -- The decision on a result keeps the cycles, and continues only below the limit.
  Decides : CanaryController f → CanaryDecision f × CanaryController f → Type 0
  Decides c o =
      (o.1.config ≡ c.config)
      × (o.1.state.analysis_cycles ≡ c.state.analysis_cycles)
      × (is_continue (P.some o.0) ≡ true → c.state.analysis_cycles < c.config.max_cycles)

  make_decision-Decides :
      (now : ℕ) (r : ThresholdResult f) (c : CanaryController f)
      → Decides c (make_decision f now r c)
  unfolding make_decision transition_to Decides
  make_decision-Decides now r c = elim (Bool-cases (should_rollback f r)) [
    | inl back ↦ rw (back, make_decision) (refl, refl, λ h. cc)
    | inr stay ↦ elim (Bool-cases (should_promote f r)) [
      | inl good ↦ elim (Bool-cases (can_advance_weight f c)) [
        | inl more ↦
            let (same, cycles) = advance_weight-same now c in
            rw (stay, good, more, make_decision) (same, cycles, λ h. cc)
        | inr last ↦ rw (stay, good, last, make_decision) (refl, refl, λ h. cc)
      ]
      | inr bad ↦ elim (Bool-cases (leb c.config.max_cycles c.state.analysis_cycles)) [
        | inl over ↦ elim (Bool-cases (is_warning f r.alert_level)) [
          | inl warn ↦ rw (stay, bad, over, warn, make_decision) (refl, refl, λ h. cc)
          | inr crit ↦ rw (stay, bad, over, crit, make_decision) (refl, refl, λ h. cc)
        ]
        | inr under ↦ rw (stay, bad, under, make_decision) (refl, refl, λ h. ground (arith, under))
      ]
    ]
  ]

  judged-Counts :
      (c : CanaryController f) (r : ThresholdResult f) (o : CanaryDecision f × CanaryController f)
      → c.state.analysis_cycles + 1 < u32
      → Decides (judged f r c) o
      → Counts c (P.some o.0) o.1
  unfolding Decides
  judged-Counts c r o room (same, cycles, below) =
      let exact : o.1.state.analysis_cycles ≡ c.state.analysis_cycles + 1 =
        omega (arith, cycles, room) in
      record {
        same = same;
        least = omega (arith, exact);
        most = omega (arith, exact);
        counted = λ h. (exact, omega (arith, exact, cycles, below h));
      }

  module _ (compare : MetricsCollector → MetricsCollector → F → StatisticalComparison f) where
    analyze-Counts :
        (now : ℕ) (c : CanaryController f)
        → c.state.analysis_cycles + 1 < u32
        → Counts c (P.some (analyze f compare now c).0) (analyze f compare now c).1
    unfolding analyze transition_to
    analyze-Counts now c room = elim (Bool-cases (is_terminal c.state.phase)) [
      | inl over ↦ rw (over, analyze) (unchanged c c (P.some complete_decision) refl refl refl)
      | inr running ↦ elim (Bool-cases (ltb c.config.max_duration (now - c.state.started_at))) [
        | inl late ↦ rw (running, late, analyze) (unchanged c _ (P.some timeout) refl refl refl)
        | inr timely ↦ elim (Bool-cases (has_sufficient_samples f c)) [
          | inr few ↦
              rw (running, timely, few, analyze)
                (unchanged c c (P.some insufficient_data) refl refl refl)
          | inl many ↦
              let r = result_of f compare c in
              rw (running, timely, many, analyze)
                (judged-Counts c r (make_decision f now r (judged f r c)) room
                  (make_decision-Decides now r (judged f r c)))
        ]
      ]
    ]

    call-Counts :
        (now : ℕ) (k : Call f) (c : CanaryController f)
        → c.state.analysis_cycles + 1 < u32
        → Counts c (call f compare now k c).0 (call f compare now k c).1
    unfolding call start complete fail record_canary record_stable transition_to
    call-Counts now start_call c room =
        let (same, cycles) = advance_weight-same now (transition_to f now (progressing 0) c) in
        unchanged c _ P.none same cycles refl
    call-Counts now analyze_call c room = analyze-Counts now c room
    call-Counts now complete_call c room = unchanged c _ P.none refl refl refl
    call-Counts now fail_call c room = unchanged c _ P.none refl refl refl
    call-Counts now (canary_sample latency success) c room = unchanged c _ P.none refl refl refl
    call-Counts now (stable_sample latency success) c room = unchanged c _ P.none refl refl refl

    -- No decision to continue, or all of them below the limit.
    run-continues :
        (ks : List (ℕ × Call f)) (c : CanaryController f)
        → c.state.analysis_cycles + length ks < u32
        → (continues (run f compare ks c).0 ≡ 0)
          ⊎ (continues (run f compare ks c).0 + c.state.analysis_cycles < c.config.max_cycles)
    unfolding run
    run-continues [] c room = inl refl
    run-continues ((now, k) ∷ ks) c room =
        let step = call-Counts now k c (omega arith) in
        let d = (call f compare now k c).1 in
        let limit = ap (λ x. x.max_cycles) step.same in
        let rest = run-continues ks d (omega (arith, step.most)) in
        elim (Bool-cases (is_continue (call f compare now k c).0)) [
          | inr other ↦ elim rest [
            | inl none_left ↦ inl (rw other (omega (arith, none_left)))
            | inr below ↦ inr (rw other (omega (arith, below, step.least, limit)))
          ]
          | inl goes_on ↦
              let (exact, under) = step.counted goes_on in
              elim rest [
                | inl none_left ↦ inr (rw goes_on (omega (arith, none_left, exact, under)))
                | inr below ↦ inr (rw goes_on (omega (arith, below, exact, limit)))
              ]
        ]

    -- In every sequence of fewer than 2 ^ 32 calls of a new controller, whatever the samples, the clock
    -- and the comparison, at most max_cycles - 1 analyses decide to continue; none does where max_cycles
    -- is 0.
    pub continues_bounded :
        (now : ℕ) (config : CanaryConfig f) (ks : List (ℕ × Call f))
        → length ks < 2 ^ 32
        → continues (run f compare ks (new f now config)).0 + 1 ≤ max config.max_cycles 1
    unfolding new
    continues_bounded now config ks few =
        omega (arith, run-continues ks (new f now config) (omega arith))
