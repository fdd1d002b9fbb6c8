-- ===== src/Shutdown/Tests.antt =====
-- A request that comes and goes, a shutdown, and the rounds of its wait.
use gg_core.Prelude.{◌≡◌, refl, some, List, [], ◌∷◌, false, arith}
use gg_core.Shutdown.{
  Tasks, Step, Steps, start, new, is_accepting, track_count, drop_guard, begin_drain, end_drain,
  timeout, wait_round, wait_for_drain, Round, notified, slept,
}
use gg_core.Shutdown.Runs.{drained_stays, Justified, wait_for_drain-Justified}

abbrev served : Tasks
served = record { coordinator = begin_drain (drop_guard (track_count new)); passed = 0; guards = 0 }

one_request : Steps start served
unfolding is_accepting new
one_request =
    Steps.next
      (Steps.next (Steps.next (Steps.next Steps.done (Step.pass false refl)) (Step.count_in 0 refl))
        (Step.release 0 refl))
      Step.begin

drained_stays_example :
    let after = record served { coordinator = end_drain served.coordinator } in
    (after.guards ≡ 0) × (after.coordinator.in_flight ≡ 0)
unfolding begin_drain drop_guard track_count new
drained_stays_example =
    drained_stays one_request refl refl (omega arith) refl (Steps.next Steps.done Step.finish)

abbrev rounds : List Round
rounds =
    record { count = 2; now = 1; wake = notified }
    ∷ record { count = 1; now = 5; wake = slept 1 }
    ∷ []

timed_out : wait_for_drain 10 rounds ≡ some (timeout 1)
unfolding wait_for_drain wait_round
timed_out = refl

wait_for_drain-Justified_example : Justified 10 rounds (wait_for_drain 10 rounds)
wait_for_drain-Justified_example = wait_for_drain-Justified 10 rounds
