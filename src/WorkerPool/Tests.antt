-- ===== src/WorkerPool/Tests.antt =====
-- A pool of two lanes: two jobs under one key, one taken, and the stop.
use raider_worker.WorkerPool.Pool.{get_lane, lane_for}
use raider_worker.WorkerPool.System.{Action, sends, receives, by_key, perform}
use raider_worker.WorkerPool.Order.{fresh, per_key_order}
use raider_worker.Base.{List, [], pos, text, ℕ, ◌++◌, ◌∷◌, ◌≡◌}

abbrev steps : List (Action ℕ)
steps = sends (text "t1:c9") 1 ∷ sends (text "t1:c9") 2 ∷ receives 0 ∷ receives 1 ∷ []

per_key_order_example :
    let s = perform (fresh (pos 2) (pos 50)) steps in
    by_key (text "t1:c9") s.started
      ++ by_key (text "t1:c9") (get_lane s.pool.lanes (lane_for s.pool (text "t1:c9"))).jobs
    ≡ by_key (text "t1:c9") s.accepted
per_key_order_example = per_key_order (pos 2) (pos 50) steps (text "t1:c9")
