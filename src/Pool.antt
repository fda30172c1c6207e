-- ===== src/Pool.antt =====
-- worker_pool.go and worker.go: workers with bounded queues, which keep the order of a connection's
-- tasks. Goroutines are steps: any order of calls and of worker rounds is a list of operations.
-- A channel is its queue and whether it is closed; a closed `done` channel is a flag.
pub mod Sound
pub mod Keeps
pub mod Invariant
pub mod Balance
pub mod Order
pub mod Drain
mod Tests
use ramix.Prelude.{
  ℕ, List, [], Bool, if◌then◌else◌, false, true, ◌||◌, Option, ◌==◌, none, Result, Error,
  server_stopping, some, leb, ◌&&◌, suc, ◌∷◌, panic, ◌%◌, ltb, ok, length, zero, ◌++◌,
  worker_queue_full, update, not,
}
use ramix.Stats.{
  ServerMetrics, task_queued, task_dequeued, new_metrics, task_rejected, request_completed,
}
use ramix.Transport.{Transport}
use ramix.Prelude.Int.{ℤ}

-- A task is a *Context: its identity, its connection's id (`none` for a nil connection), the
-- transport that its metrics are counted for, and what time.Since says when its handlers return.
pub record Task : Type 0 where
  pub id : ℕ
  pub connection : Option ℕ
  pub transport : Transport
  pub elapsed : ℤ

pub data PoolState : Type 0 where
  new started stopping stopped : PoolState

-- `ran` is whether the handlers of the task in `running` run.
pub record Worker : Type 0 where
  pub queue : List Task
  pub closed : Bool
  pub running : Option Task
  pub ran : Bool
  pub done : Bool

-- `workers` is read below `count`. `drain_begun` is drainOnce; `watched` says that the goroutine
-- which waits for the workers was started. `registered` is the map of tasks, `cancelled` the
-- tasks whose context is cancelled.
pub record Pool : Type 0 where
  pub count : ℕ
  pub capacity : ℕ
  pub workers : ℕ → Worker
  pub accepting : Bool
  pub state : PoolState
  pub registered : ℕ → Bool
  pub cancelled : ℕ → Bool
  pub drain_begun : Bool
  pub watched : Bool
  pub done : Bool
  pub metrics : ServerMetrics

abbrev pub idle_worker : Worker
idle_worker = record { queue = []; closed = false; running = none; ran = false; done = false }

abbrev pub pool_of : ℕ → ℕ → Pool
pool_of count capacity = record {
  count = count;
  capacity = capacity;
  workers = λ _. idle_worker;
  accepting = false;
  state = new;
  registered = λ _. false;
  cancelled = λ _. false;
  drain_begun = false;
  watched = false;
  done = false;
  metrics = new_metrics;
}

-- The count and the capacity are uint32; zero panics.
unfoldable pub new_worker_pool : ℕ → ℕ → Result Pool
new_worker_pool count capacity =
    if count == 0 then panic else if capacity == 0 then panic else ok (pool_of count capacity)

abbrev pub is_new : PoolState → Bool
is_new new = true
is_new _ = false

unfoldable pub start : Pool → Pool
start p = if is_new p.state then record p { state = started; accepting = true } else p

unfoldable pub worker_index : Pool → Task → ℕ
worker_index p t = elim t.connection [ none ↦ 0 | some id ↦ id % p.count ]

-- What a step shows to the outside.
pub data Event : Type 0 where
  silent : Event
  accepted : ℕ → Task → Event
  refused : Task → Error → Event
  took : ℕ → Task → Event
  panicked : Event

-- The body of `submit` under the lock, for the worker with this index; a send on a closed channel
-- panics.
unfoldable pub enqueue : ℕ → Task → Pool → Event × Pool
enqueue i t p =
    let w = p.workers i in
    let queued = record p {
      registered = update p.registered t.id true;
      metrics = task_queued t.transport p.metrics;
    } in
    if w.closed
    then (panicked, queued)
    else if ltb (length w.queue) p.capacity
    then (
      accepted i t,
      record queued { workers = update p.workers i (record w { queue = w.queue ++ (t ∷ []) }) },
    )
    else (
      refused t worker_queue_full,
      record p {
        registered = update p.registered t.id false;
        metrics =
            task_rejected t.transport
              (task_dequeued t.transport (task_queued t.transport p.metrics));
      },
    )

unfoldable pub submit : Task → Pool → Event × Pool
submit t p = if p.accepting then enqueue (worker_index p t) t p else (refused t server_stopping, p)

-- A worker receives a task: it is dequeued, and its handlers run unless its context is cancelled.
-- They run until the worker's next step, which is `finish_task`. A panic that no handler recovers
-- ends the process, and has no step.
unfoldable pub take_task : ℕ → Task → List Task → Pool → Event × Pool
take_task i t rest p =
    let w = p.workers i in
    (
      took i t,
      record p {
        workers =
            update p.workers i
              (record w { queue = rest; running = some t; ran = not (p.cancelled t.id) });
        metrics = task_dequeued t.transport p.metrics;
      },
    )

-- The request of a task that ran is counted. Then the deferred calls: unregister, and finish,
-- which cancels the task's context.
unfoldable pub finish_task : ℕ → Task → Pool → Event × Pool
finish_task i t p =
    let w = p.workers i in
    (
      silent,
      record p {
        workers = update p.workers i (record w { running = none });
        metrics = if w.ran then request_completed t.transport t.elapsed p.metrics else p.metrics;
        registered = update p.registered t.id false;
        cancelled = update p.cancelled t.id true;
      },
    )

-- The range over the queue ends where the channel is closed and empty.
unfoldable pub idle_step : ℕ → List Task → Pool → Event × Pool
idle_step i [] p =
    let w = p.workers i in
    if w.closed
    then (silent, record p { workers = update p.workers i (record w { done = true }) })
    else (silent, p)
idle_step i (t ∷ rest) p = take_task i t rest p

unfoldable pub round : ℕ → Option Task → Pool → Event × Pool
round i (some t) p = finish_task i t p
round i none p = idle_step i (p.workers i).queue p

-- The next step of a worker's goroutine, which runs once the pool was started.
unfoldable pub worker_round : ℕ → Pool → Event × Pool
worker_round i p =
    let w = p.workers i in
    if is_new p.state || w.done || leb p.count i then (silent, p) else round i w.running p

unfoldable pub stop_accepting : Pool → Pool
stop_accepting p = record p { accepting = false }

abbrev pub close_queues : (ℕ → Worker) → ℕ → Worker
close_queues workers i = record (workers i) { closed = true }

-- The first call of stopAcceptingAndDrain on a pool that was never started: it is done.
unfoldable pub drain_new : Pool → Pool
drain_new p = record p { drain_begun = true; accepting = false; state = stopped; done = true }

unfoldable pub drain_started : Pool → Pool
drain_started p = record p {
  drain_begun = true;
  accepting = false;
  state = stopping;
  workers = close_queues p.workers;
  watched = true;
}

unfoldable pub drain_in : PoolState → Pool → Pool
drain_in new p = drain_new p
drain_in started p = drain_started p
drain_in stopping p = record p { drain_begun = true; accepting = false }
drain_in stopped p = record p { drain_begun = true; accepting = false }

-- stopAcceptingAndDrain up to its wait.
unfoldable pub begin_drain : Pool → Pool
begin_drain p = if p.drain_begun then p else drain_in p.state p

abbrev pub all_done : (ℕ → Worker) → ℕ → Bool
all_done workers zero = true
all_done workers (suc n) = (workers n).done && all_done workers n

-- The goroutine that waits for every worker.
unfoldable pub watch : Pool → Pool
watch p =
    if p.watched && all_done p.workers p.count then record p { state = stopped; done = true } else p

-- forceCancel cancels every registered task.
unfoldable pub force_cancel : Pool → Pool
force_cancel p = record p { cancelled = λ id. p.registered id || p.cancelled id }

pub data Operation : Type 0 where
  start_pool stop_intake drain watch_workers cancel_all : Operation
  submit_task : Task → Operation
  run_worker : ℕ → Operation

unfoldable pub step : Operation → Pool → Event × Pool
step start_pool p = (silent, start p)
step stop_intake p = (silent, stop_accepting p)
step drain p = (silent, begin_drain p)
step watch_workers p = (silent, watch p)
step cancel_all p = (silent, force_cancel p)
step (submit_task t) p = submit t p
step (run_worker i) p = worker_round i p
