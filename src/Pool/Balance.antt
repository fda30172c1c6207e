-- ===== src/Pool/Balance.antt =====
-- What a worker has accepted is what it took and what waits in its queue, in order.
use mathlib.Core.Path.{◌≡⟨◌⟩◌, ◌∎}
use ramix.Prelude.{
  List, ℕ, ◌++◌, ◌∷◌, ◌≡◌, Option, [], if◌then◌else◌, Bool-cases, some, ◌==◌, none, append-nil, inl,
  refl, inr, true, if_true, ◌∙◌, arith, ap, ltb, if_false, sym, length, ◌&&◌, ◌||◌, leb,
  append_assoc,
}
use ramix.Pool.{
  Operation, Event, Pool, enqueue, take_task, idle_step, round, drain_in, Task, finish_task,
  drain_new, step, drain_started, accepted, took, PoolState, silent, new, started, stopping,
  stopped, update, Worker, start, stop_accepting, begin_drain, watch, force_cancel, submit,
  worker_round, is_new, all_done, submit_task, worker_index, run_worker, start_pool, stop_intake,
  drain, watch_workers, cancel_all,
}

unfoldable pub run : List Operation → Pool → List Event × Pool
run [] p = ([], p)
run (o ∷ os) p = let (e, q) = step o p in let (es, r) = run os q in (e ∷ es, r)

abbrev pub accepted_of : ℕ → Event → List Task
accepted_of i (accepted j t) = if j == i then t ∷ [] else []
accepted_of i _ = []

abbrev pub took_of : ℕ → Event → List Task
took_of i (took j t) = if j == i then t ∷ [] else []
took_of i _ = []

-- The tasks accepted for worker `i`, and those it took, in the order of the events.
abbrev pub accepted_by : ℕ → List Event → List Task
accepted_by i [] = []
accepted_by i (e ∷ es) = accepted_of i e ++ accepted_by i es

abbrev pub took_by : ℕ → List Event → List Task
took_by i [] = []
took_by i (e ∷ es) = took_of i e ++ took_by i es

abbrev Balanced : ℕ → Pool → Event × Pool → Type 0
Balanced i p (e, q) = (p.workers i).queue ++ accepted_of i e ≡ took_of i e ++ (q.workers i).queue

worker_at : (p : Pool) (i j : ℕ) → (j == i) ≡ true → p.workers j ≡ p.workers i
worker_at p i j h = let same : j ≡ i = ground arith in ap p.workers same

module _ (i : ℕ) where
  pushed :
      (j : ℕ) (t : Task) (p : Pool)
      → (p.workers i).queue ++ (if j == i then t ∷ [] else [])
        ≡ (update p.workers j
            (record (p.workers j) { queue = (p.workers j).queue ++ (t ∷ []) })
            i).queue
  pushed j t p = elim (Bool-cases (j == i)) [
    | inl here ↦ rw (here) (ap (λ (w : Worker). w.queue ++ (t ∷ [])) (sym (worker_at p i j here)))
    | inr there ↦ rw there (append-nil (p.workers i).queue)
  ]

  enqueue-Balanced : (j : ℕ) (t : Task) (p : Pool) → Balanced i p (enqueue j t p)
  unfolding enqueue
  enqueue-Balanced j t p = elim (Bool-cases (p.workers j).closed) [
    | inl shut ↦ rw (Balanced, if_true _ _ shut) (append-nil (p.workers i).queue)
    | inr open_ ↦ elim (Bool-cases (ltb (length (p.workers j).queue) p.capacity)) [
      | inl room ↦ rw (Balanced, if_false _ _ open_, if_true _ _ room) (pushed j t p)
      | inr full ↦
          rw (Balanced, if_false _ _ open_, if_false _ _ full) (append-nil (p.workers i).queue)
    ]
  ]

  take_task-Balanced :
      (j : ℕ) (t : Task) (rest : List Task) (p : Pool)
      → (p.workers j).queue ≡ t ∷ rest
      → Balanced i p (take_task j t rest p)
  unfolding take_task
  take_task-Balanced j t rest p q = elim (Bool-cases (j == i)) [
    | inl here ↦ rw here (
        append-nil (p.workers i).queue
        ∙ ap (λ (w : Worker). w.queue) (sym (worker_at p i j here))
        ∙ q)
    | inr there ↦ rw there (append-nil _)
  ]

  kept :
      (j : ℕ) (w : Worker) (p : Pool)
      → w.queue ≡ (p.workers j).queue
      → (p.workers i).queue ++ [] ≡ (update p.workers j w i).queue
  kept j w p q = elim (Bool-cases (j == i)) [
    | inl here ↦ rw here (
        append-nil (p.workers i).queue
        ∙ ap (λ (v : Worker). v.queue) (sym (worker_at p i j here))
        ∙ sym q)
    | inr there ↦ rw there (append-nil (p.workers i).queue)
  ]

  idle_step-Balanced :
      (j : ℕ) (queue : List Task) (p : Pool)
      → (p.workers j).queue ≡ queue
      → Balanced i p (idle_step j queue p)
  unfolding idle_step
  idle_step-Balanced j [] p q = elim (Bool-cases (p.workers j).closed) [
    | inl shut ↦
        rw (Balanced, if_true _ _ shut) (kept j (record (p.workers j) { done = true }) p refl)
    | inr open_ ↦ rw (Balanced, if_false _ _ open_) (append-nil (p.workers i).queue)
  ]
  idle_step-Balanced j (t ∷ rest) p q = take_task-Balanced j t rest p q

  round-Balanced : (j : ℕ) (running : Option Task) (p : Pool) → Balanced i p (round j running p)
  unfolding round finish_task
  round-Balanced j none p = idle_step-Balanced j (p.workers j).queue p refl
  round-Balanced j (some t) p = kept j (record (p.workers j) { running = none }) p refl

  drain_in-Balanced : (s : PoolState) (p : Pool) → Balanced i p (silent, drain_in s p)
  unfolding drain_in drain_new drain_started
  drain_in-Balanced new p = append-nil (p.workers i).queue
  drain_in-Balanced started p = append-nil (p.workers i).queue
  drain_in-Balanced stopping p = append-nil (p.workers i).queue
  drain_in-Balanced stopped p = append-nil (p.workers i).queue

  step-Balanced : (o : Operation) (p : Pool) → Balanced i p (step o p)
  unfolding step start stop_accepting begin_drain watch force_cancel submit worker_round
  step-Balanced start_pool p = elim (Bool-cases (is_new p.state)) [
    | inl e ↦ rw (Balanced, if_true _ _ e) (append-nil (p.workers i).queue)
    | inr e ↦ rw (Balanced, if_false _ _ e) (append-nil (p.workers i).queue)
  ]
  step-Balanced stop_intake p = append-nil (p.workers i).queue
  step-Balanced drain p = elim (Bool-cases p.drain_begun) [
    | inl e ↦ rw (Balanced, if_true _ _ e) (append-nil (p.workers i).queue)
    | inr e ↦ rw (Balanced, if_false _ _ e) (drain_in-Balanced p.state p)
  ]
  step-Balanced watch_workers p = elim (Bool-cases (p.watched && all_done p.workers p.count)) [
    | inl e ↦ rw (Balanced, if_true _ _ e) (append-nil (p.workers i).queue)
    | inr e ↦ rw (Balanced, if_false _ _ e) (append-nil (p.workers i).queue)
  ]
  step-Balanced cancel_all p = append-nil (p.workers i).queue
  step-Balanced (submit_task t) p = elim (Bool-cases p.accepting) [
    | inl e ↦ rw (Balanced, if_true _ _ e) (enqueue-Balanced (worker_index p t) t p)
    | inr e ↦ rw (Balanced, if_false _ _ e) (append-nil (p.workers i).queue)
  ]
  step-Balanced (run_worker j) p =
      elim (Bool-cases (is_new p.state || (p.workers j).done || leb p.count j)) [
        | inl e ↦ rw (Balanced, if_true _ _ e) (append-nil (p.workers i).queue)
        | inr e ↦ rw (Balanced, if_false _ _ e) (round-Balanced j (p.workers j).running p)
      ]

pub run-Balanced :
    (i : ℕ) (os : List Operation) (p : Pool)
    → (p.workers i).queue ++ accepted_by i (run os p).0
      ≡ took_by i (run os p).0 ++ ((run os p).1.workers i).queue
unfolding run
run-Balanced i [] p = append-nil (p.workers i).queue
run-Balanced i (o ∷ os) p =
    let (e, q) = step o p in
    let es = (run os q).0 in
    (p.workers i).queue ++ (accepted_of i e ++ accepted_by i es)
    ≡⟨ sym (append_assoc (p.workers i).queue (accepted_of i e) (accepted_by i es)) ⟩
      ((p.workers i).queue ++ accepted_of i e) ++ accepted_by i es
    ≡⟨ ap (λ l. l ++ accepted_by i es) (step-Balanced i o p) ⟩
      (took_of i e ++ (q.workers i).queue) ++ accepted_by i es
    ≡⟨ append_assoc (took_of i e) (q.workers i).queue (accepted_by i es) ⟩
      took_of i e ++ ((q.workers i).queue ++ accepted_by i es)
    ≡⟨ ap (λ l. took_of i e ++ l) (run-Balanced i os q) ⟩
      took_of i e ++ (took_by i es ++ ((run os q).1.workers i).queue)
    ≡⟨ sym (append_assoc (took_of i e) (took_by i es) ((run os q).1.workers i).queue) ⟩
      (took_of i e ++ took_by i es) ++ ((run os q).1.workers i).queue ∎
