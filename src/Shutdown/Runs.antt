-- ===== src/Shutdown/Runs.antt =====
-- What the shutdown coordinator counts, and what a finished drain means (core-runtime/src/shutdown.rs).
use gg_core.Prelude.{
  ℕ, zero, suc, ◌%◌, ◌≤◌, ◌<◌, All, Option, ◌≡◌, refl, sym, ap, subst, ◌⊎◌, inl, inr, true, false,
  none, some, List, [], ◌∷◌, ◌++◌, leb, ◌==◌, arith, Bool-cases, Option-cases,
}
use gg_core.Shutdown.{
  ShutdownResult, Tasks, Step, Steps, start, new, u32, is_running, is_accepting, track_count,
  drop_guard, begin_drain, end_drain, complete, timeout, wait_round, wait_for_drain, Round, Wake,
  notified, slept, at_end, after_wake,
}

-- The counter holds the guards, up to its width.
abbrev pub IsCounted : Tasks → Type 0
IsCounted t = t.coordinator.in_flight ≡ t.guards % u32

Step-IsCounted : {t u : Tasks} → Step t u → IsCounted t → IsCounted u
unfolding track_count drop_guard begin_drain end_drain
Step-IsCounted (Step.pass locked e) h = h
Step-IsCounted (Step.count_in n e) h = omega (arith, h)
Step-IsCounted (Step.release n e) h = omega (arith, h, e)
Step-IsCounted Step.begin h = h
Step-IsCounted Step.finish h = h

-- In every interleaving of the tasks the counter is the number of guards, modulo 2^32.
pub steps-IsCounted : {t : Tasks} → Steps start t → t.coordinator.in_flight ≡ t.guards % u32
unfolding new
steps-IsCounted Steps.done = refl
steps-IsCounted (Steps.next path step) = Step-IsCounted step (steps-IsCounted path)

-- No new request is accepted, none is between the test and the count, and none runs.
abbrev pub IsQuiet : Tasks → Type 0
IsQuiet t = (is_running t.coordinator.state ≡ false) × (t.passed ≡ 0) × (t.guards ≡ 0)

Step-IsQuiet : {t u : Tasks} → Step t u → IsQuiet t → IsQuiet u
unfolding is_accepting begin_drain end_drain
Step-IsQuiet (Step.pass true e) (s, p, g) = cc e
Step-IsQuiet (Step.pass false e) (s, p, g) = cc (e, s)
Step-IsQuiet (Step.count_in n e) (s, p, g) = absurd (omega (arith, e, p))
Step-IsQuiet (Step.release n e) (s, p, g) = absurd (omega (arith, e, g))
Step-IsQuiet Step.begin (s, p, g) = (refl, p, g)
Step-IsQuiet Step.finish (s, p, g) = (refl, p, g)

steps-IsQuiet : {t u : Tasks} → Steps t u → IsQuiet t → IsQuiet u
steps-IsQuiet Steps.done q = q
steps-IsQuiet (Steps.next path step) q = Step-IsQuiet step (steps-IsQuiet path q)

-- Where a run has left the running state with no request between the test and the count of `track`,
-- fewer than 2^32 guards and a counter of zero, no request runs in any interleaving that follows,
-- and the counter stays zero.
pub drained_stays :
    {t u : Tasks}
    → Steps start t
    → is_running t.coordinator.state ≡ false
    → t.passed ≡ 0
    → t.guards < u32
    → t.coordinator.in_flight ≡ 0
    → Steps t u
    → (u.guards ≡ 0) × (u.coordinator.in_flight ≡ 0)
drained_stays path left empty few zero_seen later =
    let counted = steps-IsCounted path in
    let (_, _, none_left) =
      steps-IsQuiet later (left, empty, omega (arith, counted, few, zero_seen)) in
    (none_left, omega (arith, steps-IsCounted (joined path later), none_left))
  where
    joined : {t u v : Tasks} → Steps t u → Steps u v → Steps t v
    joined p Steps.done = p
    joined p (Steps.next q step) = Steps.next (joined p q) step

-- A round after which the loop goes on: requests are in flight, the deadline is not reached, and a
-- notification ends the wait.
abbrev pub GoesOn : ℕ → Round → Type 0
GoesOn deadline r = (0 < r.count) × (r.now < deadline) × (r.wake ≡ notified)

-- What a round sees that decides: the count at its start, or, before the deadline, the count after its
-- sleep; requests that remain are counted at its start only where the deadline is reached.
abbrev pub Decides : ℕ → Round → ShutdownResult → Type 0
Decides deadline r complete =
    (r.count ≡ 0) ⊎ ((0 < r.count) × (r.now < deadline) × (r.wake ≡ slept 0))
Decides deadline r (timeout n) =
    (0 < n)
    × (0 < r.count)
    × (((deadline ≤ r.now) × (r.count ≡ n)) ⊎ ((r.now < deadline) × (r.wake ≡ slept n)))

-- The result of the loop over its rounds: the first round that does not go on decides it.
abbrev pub Justified : ℕ → List Round → Option ShutdownResult → Type 0
Justified deadline rounds none = All (GoesOn deadline) rounds
Justified deadline rounds (some result) =
    (before : List Round) × (r : Round) × (after : List Round) × (rounds ≡ before ++ r ∷ after)
    × All (GoesOn deadline) before
    × Decides deadline r result

abbrev RoundJustified : ℕ → Round → Option ShutdownResult → Type 0
RoundJustified deadline r none = GoesOn deadline r
RoundJustified deadline r (some result) = Decides deadline r result

woken-Justified :
    (deadline : ℕ) (r : Round) (w : Wake)
    → r.wake ≡ w
    → 0 < r.count
    → r.now < deadline
    → RoundJustified deadline r (after_wake w)
woken-Justified deadline r notified e busy early = (busy, early, e)
woken-Justified deadline r (slept zero) e busy early = inr (busy, early, e)
woken-Justified deadline r (slept (suc n)) e busy early =
    let late : at_end (suc n) ≡ timeout (suc n) = ground arith in
    subst (Decides deadline r) (sym late) (omega arith, busy, inr (early, e))

round-Justified : (deadline : ℕ) (r : Round) → RoundJustified deadline r (wait_round deadline r)
unfolding wait_round
round-Justified deadline r = elim (Bool-cases (r.count == 0)) [
  | inl idle ↦ rw idle (inl (ground arith))
  | inr busy ↦ elim (Bool-cases (leb deadline r.now)) [
    | inl late ↦ rw (busy, late) (ground arith, ground arith, inl (ground arith, refl))
    | inr early ↦
        rw (busy, early) (woken-Justified deadline r r.wake refl (ground arith) (ground arith))
  ]
]

later-Justified :
    (deadline : ℕ) (r : Round) (rounds : List Round) (result : Option ShutdownResult)
    → GoesOn deadline r
    → Justified deadline rounds result
    → Justified deadline (r ∷ rounds) result
later-Justified deadline r rounds none on all = (on, all)
later-Justified deadline r rounds (some result) on (before, x, after, split, all, why) =
    (r ∷ before, x, after, ap (◌∷◌ r) split, (on, all), why)

-- For every deadline and all rounds: the wait for the drain has no result only where in every round
-- requests are in flight, the deadline is not reached and a notification ends the wait. Its result is
-- decided by the first other round: completion by a count of zero at its start or, before the
-- deadline, after its sleep; a timeout by the count of requests, above zero, at its start where the
-- deadline is reached, or after its sleep where it was not.
pub wait_for_drain-Justified :
    (deadline : ℕ) (rounds : List Round)
    → Justified deadline rounds (wait_for_drain deadline rounds)
unfolding wait_for_drain
wait_for_drain-Justified deadline [] = tt
wait_for_drain-Justified deadline (r ∷ rounds) = elim (Option-cases (wait_round deadline r)) [
  | inl none_here ↦
      let e : wait_for_drain deadline (r ∷ rounds) ≡ wait_for_drain deadline rounds =
        ground arith in
      subst (Justified deadline (r ∷ rounds)) (sym e) (
        later-Justified deadline r rounds (wait_for_drain deadline rounds)
          (subst (RoundJustified deadline r) none_here (round-Justified deadline r))
          (wait_for_drain-Justified deadline rounds))
  | inr (result, here) ↦
      let e : wait_for_drain deadline (r ∷ rounds) ≡ some result = ground arith in
      subst (Justified deadline (r ∷ rounds)) (sym e) (
        [],
        r,
        rounds,
        refl,
        tt,
        subst (RoundJustified deadline r) here (round-Justified deadline r),
      )
]
