-- ===== src/Pool/Tests.antt =====
-- Runs of the pool, and the theorems at concrete inputs.
use ramix.Prelude.{ℕ, List, ◌≡◌, some, ok, true, ◌∷◌, ◌++◌, none, refl, [], arith, false, ◌<◌}
use ramix.Pool.Order.{IsPlaced, run_in_order}
use ramix.Pool.Balance.{run, accepted_by, took_by}
use ramix.Pool.{
  new_worker_pool, Pool, Task, Operation, step, pool_of, start_pool, start, stopping, submit,
  submit_task, enqueue, run_worker, worker_index, drain, worker_round, watch_workers, round,
  idle_step, take_task, finish_task, begin_drain, drain_in, drain_started, watch, cancel_all,
  force_cancel,
}
use ramix.Pool.Drain.{rounds, rounds_stop, done_took_all}
use ramix.Pool.Invariant.{step-Inv}
use ramix.Pool.Sound.{Inv, new_worker_pool-Inv}
use ramix.Bytes.{All}
use ramix.Prelude.Int.{pos}
use ramix.Stats.{
  request_completed, complete_request, saturating_add, saturating_add_among, cas_loop, next_sum,
  saturated_sum, for_transport, task_queued, task_dequeued,
}

abbrev task_of : ℕ → ℕ → Task
task_of id connection = record {
  id = id;
  connection = some connection;
  transport = 1;
  elapsed = pos 5;
}

abbrev session : List Operation
session =
    start_pool
    ∷ submit_task (task_of 1 7)
    ∷ submit_task (task_of 2 7)
    ∷ submit_task (task_of 3 7)
    ∷ run_worker 1
    ∷ run_worker 1
    ∷ drain
    ∷ submit_task (task_of 4 7)
    ∷ run_worker 1
    ∷ run_worker 1
    ∷ run_worker 1
    ∷ run_worker 0
    ∷ watch_workers
    ∷ []

-- The third task finds its queue full.
session_took : took_by 1 (run session (pool_of 2 2)).0 ≡ task_of 1 7 ∷ task_of 2 7 ∷ []
unfolding run step start submit enqueue worker_index worker_round round idle_step take_task
    finish_task begin_drain drain_in drain_started watch
session_took = refl

session_done : (run session (pool_of 2 2)).1.done ≡ true
unfolding run step start submit enqueue worker_index worker_round round idle_step take_task
    finish_task begin_drain drain_in drain_started watch
session_done = refl

made : new_worker_pool 2 2 ≡ ok (pool_of 2 2)
unfolding new_worker_pool
made = refl

run_in_order_example :
    (accepted_by 1 (run session (pool_of 2 2)).0
      ≡ took_by 1 (run session (pool_of 2 2)).0 ++ ((run session (pool_of 2 2)).1.workers 1).queue)
    × All (IsPlaced 2) (run session (pool_of 2 2)).0
run_in_order_example = run_in_order 2 2 (pool_of 2 2) session 1 made

session_count : 1 < (run session (pool_of 2 2)).1.count
unfolding run step start submit enqueue worker_index worker_round round idle_step take_task
    finish_task begin_drain drain_in drain_started watch
session_count = omega arith

done_took_all_example :
    (accepted_by 1 (run session (pool_of 2 2)).0 ≡ took_by 1 (run session (pool_of 2 2)).0)
    × (((run session (pool_of 2 2)).1.workers 1).running ≡ none)
done_took_all_example = done_took_all 2 2 (pool_of 2 2) session 1 made session_done session_count

abbrev closing : Pool
closing = record (pool_of 2 2) {
  state = stopping;
  workers = λ _. record {
    queue = task_of 5 1 ∷ [];
    closed = true;
    running = some (task_of 4 1);
    ran = true;
    done = false;
  };
}

rounds_stop_example : ((rounds 4 1 closing).workers 1).done ≡ true
rounds_stop_example =
    rounds_stop 4 1 closing (record { known = omega arith; begun = refl; shut = refl })
      (omega arith)

step-Inv_example : Inv (step start_pool (pool_of 2 2)).1
step-Inv_example = step-Inv start_pool (pool_of 2 2) (new_worker_pool-Inv 2 2 (pool_of 2 2) made)

-- The first task runs and is counted; the second is cancelled before its worker takes it.
abbrev cancelled_session : List Operation
cancelled_session =
    start_pool
    ∷ submit_task (task_of 1 7)
    ∷ submit_task (task_of 2 7)
    ∷ run_worker 1
    ∷ cancel_all
    ∷ run_worker 1
    ∷ run_worker 1
    ∷ run_worker 1
    ∷ []

cancelled_runs : (run cancelled_session (pool_of 2 2)).1.metrics.tcp.completed_requests ≡ 1
unfolding run step start submit enqueue worker_index worker_round round idle_step take_task
    finish_task begin_drain drain_in drain_started watch force_cancel request_completed
    complete_request saturating_add saturating_add_among cas_loop next_sum saturated_sum
    for_transport task_queued task_dequeued
cancelled_runs = refl
