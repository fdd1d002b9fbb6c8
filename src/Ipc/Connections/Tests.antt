-- ===== src/Ipc/Connections/Tests.antt =====
-- Two tasks that race for one slot.
use gg_core.Prelude.{◌≤◌, ◌≡◌, refl, [], ◌∷◌, arith}
use gg_core.Ipc.Connections.{ConnectionConfig, Tasks, Step, Steps, start, new, look, exchange}
use gg_core.Ipc.Connections.Safety.{connections_bounded}

abbrev single : ConnectionConfig
single = record { max_connections = 1 }

abbrev taken : Tasks
taken = record { pool = record { active = 1; config = single }; seen = []; guards = 1 }

race : Steps (start single) taken
unfolding new look exchange
race =
    Steps.next
      (Steps.next (Steps.next (Steps.next Steps.done (Step.load 0 refl)) (Step.load 0 refl))
        (Step.won [] (0 ∷ []) 0 _ refl refl))
      (Step.lost [] [] 0 _ refl refl)

connections_bounded_example : (taken.pool.active ≡ 1) × (1 ≤ single.max_connections)
connections_bounded_example = connections_bounded single (omega arith) race
