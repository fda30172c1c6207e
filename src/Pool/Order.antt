-- ===== src/Pool/Order.antt =====
-- Each worker runs the tasks that were accepted for it in the order of their acceptance, and the
-- tasks of a connection are all accepted for one worker.
use ramix.Pool.Invariant.{step-Inv}
use ramix.Pool.Keeps.{taking_open}
use ramix.Pool.Sound.{Inv, new_worker_pool-Inv}
use ramix.Prelude.{
  List, ℕ, ◌++◌, ◌∷◌, ◌≡◌, Option, [], Bool-cases, some, none, inl, refl, inr, if_true, arith, ap,
  ltb, if_false, sym, length, ◌||◌, leb, ◌%◌, false, ok,
}
use ramix.Pool.{
  Operation, Event, Pool, enqueue, take_task, idle_step, round, drain_in, Task, finish_task,
  drain_new, step, drain_started, accepted, PoolState, new, started, stopping, stopped, start,
  stop_accepting, begin_drain, watch, force_cancel, submit, worker_round, is_new, submit_task,
  worker_index, run_worker, start_pool, stop_intake, drain, watch_workers, cancel_all,
  new_worker_pool, panicked, pool_of,
}
use ramix.Bytes.{All}
use ramix.Pool.Balance.{accepted_by, run, run-Balanced, took_by}

-- A task is accepted for the worker of its connection's id, and a send never finds a closed queue.
abbrev pub IsPlaced : ℕ → Event → Type 0
IsPlaced count (accepted i t) = i ≡ (elim t.connection [ none ↦ 0 | some id ↦ id % count ])
IsPlaced count panicked = ⊥
IsPlaced count _ = Unit {0}

enqueue-IsPlaced :
    (t : Task) (p : Pool)
    → (p.workers (worker_index p t)).closed ≡ false
    → IsPlaced p.count (enqueue (worker_index p t) t p).0
unfolding enqueue
enqueue-IsPlaced t p c =
    elim (Bool-cases (ltb (length (p.workers (worker_index p t)).queue) p.capacity)) [
      | inl room ↦ rw (if_false _ _ c, if_true _ _ room) (unfold worker_index in refl)
      | inr full ↦ rw (if_false _ _ c, if_false _ _ full) tt
    ]

idle_step-IsPlaced :
    (i : ℕ) (queue : List Task) (p : Pool) → IsPlaced p.count (idle_step i queue p).0
unfolding idle_step take_task
idle_step-IsPlaced i [] p = elim (Bool-cases (p.workers i).closed) [
  | inl e ↦ rw (if_true _ _ e) tt
  | inr e ↦ rw (if_false _ _ e) tt
]
idle_step-IsPlaced i (t ∷ rest) p = tt

round-IsPlaced : (i : ℕ) (running : Option Task) (p : Pool) → IsPlaced p.count (round i running p).0
unfolding round finish_task
round-IsPlaced i (some t) p = tt
round-IsPlaced i none p = idle_step-IsPlaced i (p.workers i).queue p

step-IsPlaced : (o : Operation) (p : Pool) → Inv p → IsPlaced p.count (step o p).0
unfolding step submit worker_round
step-IsPlaced start_pool p h = tt
step-IsPlaced stop_intake p h = tt
step-IsPlaced drain p h = tt
step-IsPlaced watch_workers p h = tt
step-IsPlaced cancel_all p h = tt
step-IsPlaced (submit_task t) p h = elim (Bool-cases p.accepting) [
  | inl e ↦ rw (if_true _ _ e) (enqueue-IsPlaced t p (taking_open h e (worker_index p t)))
  | inr e ↦ rw (if_false _ _ e) tt
]
step-IsPlaced (run_worker i) p h =
    elim (Bool-cases (is_new p.state || (p.workers i).done || leb p.count i)) [
      | inl e ↦ rw (if_true _ _ e) tt
      | inr e ↦ rw (if_false _ _ e) (round-IsPlaced i (p.workers i).running p)
    ]

enqueue-count : (i : ℕ) (t : Task) (p : Pool) → (enqueue i t p).1.count ≡ p.count
unfolding enqueue
enqueue-count i t p = ground arith

idle_step-count : (i : ℕ) (queue : List Task) (p : Pool) → (idle_step i queue p).1.count ≡ p.count
unfolding idle_step take_task
idle_step-count i [] p = ground arith
idle_step-count i (t ∷ rest) p = refl

round-count : (i : ℕ) (running : Option Task) (p : Pool) → (round i running p).1.count ≡ p.count
unfolding round finish_task
round-count i (some t) p = refl
round-count i none p = idle_step-count i (p.workers i).queue p

drain_in-count : (s : PoolState) (p : Pool) → (drain_in s p).count ≡ p.count
unfolding drain_in drain_new drain_started
drain_in-count new p = refl
drain_in-count started p = refl
drain_in-count stopping p = refl
drain_in-count stopped p = refl

step-count : (o : Operation) (p : Pool) → (step o p).1.count ≡ p.count
unfolding step start stop_accepting begin_drain watch force_cancel submit worker_round
step-count start_pool p = ground arith
step-count stop_intake p = refl
step-count drain p = ground (arith, drain_in-count p.state p)
step-count watch_workers p = ground arith
step-count cancel_all p = refl
step-count (submit_task t) p = ground (arith, enqueue-count (worker_index p t) t p)
step-count (run_worker i) p = ground (arith, round-count i (p.workers i).running p)

pub run-IsPlaced :
    (os : List Operation) (p : Pool)
    → Inv p
    → All (IsPlaced p.count) (run os p).0 × Inv (run os p).1
unfolding run
run-IsPlaced [] p h = (tt, h)
run-IsPlaced (o ∷ os) p h =
    let (later, end_) = run-IsPlaced os (step o p).1 (step-Inv o p h) in
    ((step-IsPlaced o p h, rw (step-count o p) at later), end_)

new_queue :
    (count capacity : ℕ) (p : Pool) (i : ℕ)
    → new_worker_pool count capacity ≡ ok p
    → (p.workers i).queue ≡ []
unfolding new_worker_pool
new_queue count capacity p i e =
    let made : pool_of count capacity ≡ p = ground arith in
    ap (λ (q : Pool). (q.workers i).queue) (sym made)

-- Whatever the order of the calls and of the workers' rounds, on a new pool: each worker takes a
-- prefix of the tasks that were accepted for it, in the order of their acceptance, and holds the
-- rest in its queue; a task is accepted only for the worker of its connection's id, so the tasks
-- of a connection are in one such order; and no send panics.
pub run_in_order :
    (count capacity : ℕ) (p : Pool) (os : List Operation) (i : ℕ)
    → new_worker_pool count capacity ≡ ok p
    → (accepted_by i (run os p).0 ≡ took_by i (run os p).0 ++ ((run os p).1.workers i).queue)
      × All (IsPlaced p.count) (run os p).0
run_in_order count capacity p os i e = (
  rw (new_queue count capacity p i e) at (run-Balanced i os p),
  (run-IsPlaced os p (new_worker_pool-Inv count capacity p e)).0,
)
