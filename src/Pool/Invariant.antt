-- ===== src/Pool/Invariant.antt =====
-- What holds of a pool between two steps.
use ramix.Pool.{
  Pool, step, Operation, submit_task, run_worker, start_pool, stop_intake, drain, watch_workers,
  cancel_all,
}
use ramix.Pool.Keeps.{
  begin_drain-Inv, force_cancel-Inv, start-Inv, stop_accepting-Inv, submit-Inv, watch-Inv,
  worker_round-Inv,
}
use ramix.Pool.Sound.{Inv}

-- Every operation and every round of a worker keeps what holds of a pool: it takes tasks in only
-- while it is started, no queue is longer than its capacity, a worker that is done has a closed and
-- empty queue and runs no task, and a pool that is done has only empty and idle workers.
pub step-Inv : (o : Operation) (p : Pool) → Inv p → Inv (step o p).1
unfolding step
step-Inv start_pool p h = start-Inv h
step-Inv stop_intake p h = stop_accepting-Inv h
step-Inv drain p h = begin_drain-Inv h
step-Inv watch_workers p h = watch-Inv h
step-Inv cancel_all p h = force_cancel-Inv h
step-Inv (submit_task t) p h = submit-Inv h t
step-Inv (run_worker i) p h = worker_round-Inv h i
