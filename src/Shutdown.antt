-- ===== src/Shutdown.antt =====
-- core-runtime/src/shutdown.rs: the shutdown coordinator and the requests it tracks. `track` is two
-- atomic steps, the test of the state and the count, between which other tasks run.
pub mod Runs
pub mod Tests
use gg_core.Prelude.{
  ℕ, suc, ◌+◌, ◌-◌, ◌%◌, ◌^◌, Bool, true, false, not, ◌&&◌, Option, none, some, List, [], ◌∷◌, leb,
  ◌==◌, ◌≡◌, if◌then◌else◌,
}

abbrev pub u32 : ℕ
u32 = 2 ^ 32

pub data ShutdownState : Type 0 where
  running draining stopped : ShutdownState

pub data ShutdownResult : Type 0 where
  complete : ShutdownResult
  timeout : ℕ → ShutdownResult

pub record ShutdownCoordinator : Type 0 where
  pub state : ShutdownState
  pub in_flight : ℕ

unfoldable pub new : ShutdownCoordinator
new = record { state = running; in_flight = 0 }

abbrev pub is_running : ShutdownState → Bool
is_running running = true
is_running draining = false
is_running stopped = false

-- `locked`: try_read fails while a writer has the lock.
unfoldable pub is_accepting : Bool → ShutdownCoordinator → Bool
is_accepting locked c = not locked && is_running c.state

-- The second step of `track`, the count.
unfoldable pub track_count : ShutdownCoordinator → ShutdownCoordinator
track_count c = record c { in_flight = (c.in_flight + 1) % u32 }

-- The drop of a guard.
unfoldable pub drop_guard : ShutdownCoordinator → ShutdownCoordinator
drop_guard c = record c { in_flight = (c.in_flight + (u32 - 1)) % u32 }

-- The first and the last step of `initiate`.
unfoldable pub begin_drain : ShutdownCoordinator → ShutdownCoordinator
begin_drain c = record c { state = draining }

unfoldable pub end_drain : ShutdownCoordinator → ShutdownCoordinator
end_drain c = record c { state = stopped }

-- What ends the wait of a round: a notification, or the time with the final count.
pub data Wake : Type 0 where
  notified : Wake
  slept : ℕ → Wake

-- What a round of the loop sees: the count, the time, and what ends its wait.
pub record Round : Type 0 where
  pub count : ℕ
  pub now : ℕ
  pub wake : Wake

-- After the sleep.
abbrev pub at_end : ℕ → ShutdownResult
at_end final_count = if final_count == 0 then complete else timeout final_count

-- The result of a round, or none where the loop goes on.
abbrev pub after_wake : Wake → Option ShutdownResult
after_wake notified = none
after_wake (slept final_count) = some (at_end final_count)

unfoldable pub wait_round : ℕ → Round → Option ShutdownResult
wait_round deadline r =
    if r.count == 0
    then some complete
    else if leb deadline r.now
    then some (timeout r.count)
    else after_wake r.wake

-- The loop over its rounds; none if it still waits at the end.
unfoldable pub wait_for_drain : ℕ → List Round → Option ShutdownResult
wait_for_drain deadline [] = none
wait_for_drain deadline (r ∷ rounds) =
    let later = wait_for_drain deadline rounds in
    elim (wait_round deadline r) [ none ↦ later | some result ↦ some result ]

-- The coordinator with the tasks around it: those that passed the test of `track` and have not
-- counted yet, and those that hold a guard.
pub record Tasks : Type 0 where
  pub coordinator : ShutdownCoordinator
  pub passed : ℕ
  pub guards : ℕ

abbrev pub start : Tasks
start = record { coordinator = new; passed = 0; guards = 0 }

-- The steps of the tasks, in any order.
pub data Step : Tasks → Tasks → Type 0 where
  pass :
      {t : Tasks} (locked : Bool)
      → is_accepting locked t.coordinator ≡ true
      → Step t (record t { passed = t.passed + 1 })
  count_in :
      {t : Tasks} (n : ℕ)
      → t.passed ≡ n + 1
      → Step t
          (record { coordinator = track_count t.coordinator; passed = n; guards = t.guards + 1 })
  release :
      {t : Tasks} (n : ℕ)
      → t.guards ≡ n + 1
      → Step t (record t { coordinator = drop_guard t.coordinator; guards = n })
  begin : {t : Tasks} → Step t (record t { coordinator = begin_drain t.coordinator })
  finish : {t : Tasks} → Step t (record t { coordinator = end_drain t.coordinator })

pub data Steps : Tasks → Tasks → Type 0 where
  done : {t : Tasks} → Steps t t
  next : {t u v : Tasks} → Steps t u → Step u v → Steps t v
