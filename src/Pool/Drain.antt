-- ===== src/Pool/Drain.antt =====
-- When a drain is over, and that a drain that was begun gets there.
use ramix.Prelude.{
  ℕ, Option, ◌*◌, List, length, ◌<◌, ◌≡◌, suc, some, ◌+◌, if_true, true, none, false, arith, ◌⊎◌,
  zero, ok, ◌==◌, ap, Bool-cases, inl, ◌∙◌, inr, if_false, refl, ◌∷◌, append-nil, [], ◌||◌, leb,
  sym, not,
}
use ramix.Pool.{
  Worker, Pool, Task, update, finish_task, Operation, worker_round, is_new, new_worker_pool,
  idle_step, round, take_task,
}
use ramix.Pool.Order.{run-IsPlaced, run_in_order}
use ramix.Pool.Balance.{run, accepted_by, took_by}
use ramix.Pool.Sound.{new_worker_pool-Inv}
use mathlib.Core.Path.{subst}

-- When a pool is done, each of its workers has taken from its queue every task that was accepted for
-- it, in order, and is at work on none. (A worker skips the handlers of a task whose context was
-- cancelled before it was taken.)
pub done_took_all :
    (count capacity : ℕ) (p : Pool) (os : List Operation) (i : ℕ)
    → new_worker_pool count capacity ≡ ok p
    → (run os p).1.done ≡ true
    → i < (run os p).1.count
    → (accepted_by i (run os p).0 ≡ took_by i (run os p).0)
      × (((run os p).1.workers i).running ≡ none)
done_took_all count capacity p os i e d lt =
    let inv = (run-IsPlaced os p (new_worker_pool-Inv count capacity p e)).1 in
    let (none_left, idle) = inv.over i lt d in
    (
      (run_in_order count capacity p os i e).0 ∙ rw none_left (append-nil (took_by i (run os p).0)),
      idle,
    )

-- The rounds of one worker.
unfoldable pub rounds : ℕ → ℕ → Pool → Pool
rounds zero i p = p
rounds (suc n) i p = rounds n i (worker_round i p).1

abbrev busy : Option Task → ℕ
busy none = 0
busy (some _) = 1

-- What a worker has to do: two rounds for a task in its queue, one for the task that it runs.
abbrev pub work : Worker → ℕ
work w = 2 * length w.queue + busy w.running

-- A worker whose queue was closed, in a pool that was started.
pub record IsClosing (i : ℕ) (p : Pool) : Type 0 where
  pub known : i < p.count
  pub begun : is_new p.state ≡ false
  pub shut : (p.workers i).closed ≡ true

update_self {ℓ} : {A : Type ℓ} (f : ℕ → A) (i : ℕ) (a : A) → update f i a i ≡ a
update_self f i a = let itself : (i == i) ≡ true = ground arith in rw itself

abbrev Advances : ℕ → Pool → Pool → Type 0
Advances i p q =
    IsClosing i q × (((q.workers i).done ≡ true) ⊎ (work (q.workers i) < work (p.workers i)))

Advances-with :
    (i : ℕ) (p q : Pool) (w : Worker)
    → IsClosing i p
    → (q.count ≡ p.count) × (q.state ≡ p.state) × (q.workers ≡ update p.workers i w)
    → w.closed ≡ true
    → (w.done ≡ true) ⊎ (work w < work (p.workers i))
    → Advances i p q
Advances-with i p q w c (e1, e2, e3) shut less =
    let mine : q.workers i ≡ w = ap (λ f. f i) e3 ∙ update_self p.workers i w in
    (record { known = rw e1 c.known; begun = rw e2 c.begun; shut = rw mine shut }, rw mine less)

idle_step-Advances :
    (i : ℕ) (queue : List Task) (p : Pool)
    → IsClosing i p
    → (p.workers i).queue ≡ queue
    → (p.workers i).running ≡ none
    → Advances i p (idle_step i queue p).1
unfolding idle_step take_task
idle_step-Advances i [] p c q r = rw (if_true _ _ c.shut) (
    Advances-with i p _ (record (p.workers i) { done = true }) c (refl, refl, refl) c.shut
      (inl refl))
idle_step-Advances i (t ∷ rest) p c q r =
    Advances-with i p _
      (record (p.workers i) { queue = rest; running = some t; ran = not (p.cancelled t.id) }) c
      (refl, refl, refl) c.shut (inr (rw (q, r) (omega arith)))

round-Advances :
    (i : ℕ) (running : Option Task) (p : Pool)
    → IsClosing i p
    → (p.workers i).running ≡ running
    → Advances i p (round i running p).1
unfolding round finish_task
round-Advances i none p c r = idle_step-Advances i (p.workers i).queue p c refl r
round-Advances i (some t) p c r =
    Advances-with i p _ (record (p.workers i) { running = none }) c (refl, refl, refl) c.shut
      (inr (rw r (omega arith)))

worker_round-Advances : (i : ℕ) (p : Pool) → IsClosing i p → Advances i p (worker_round i p).1
unfolding worker_round
worker_round-Advances i p c =
    elim (Bool-cases (is_new p.state || (p.workers i).done || leb p.count i)) [
      | inl over ↦ rw (if_true _ _ over) (c, inl (stopped_of over))
      | inr live ↦ rw (if_false _ _ live) (round-Advances i (p.workers i).running p c refl)
    ]
  where
    stopped_of :
        (is_new p.state || (p.workers i).done || leb p.count i) ≡ true → (p.workers i).done ≡ true
    stopped_of e = ground (arith, c.known, c.begun)

worker_round_done : (i : ℕ) (p : Pool) → (p.workers i).done ≡ true → (worker_round i p).1 ≡ p
unfolding worker_round
worker_round_done i p d =
    let over : (is_new p.state || (p.workers i).done || leb p.count i) ≡ true = ground arith in
    rw (if_true _ _ over)

rounds_done :
    (n i : ℕ) (p : Pool) → (p.workers i).done ≡ true → ((rounds n i p).workers i).done ≡ true
unfolding rounds
rounds_done zero i p d = d
rounds_done (suc n) i p d =
    subst (λ q. ((rounds n i q).workers i).done ≡ true) (sym (worker_round_done i p d))
      (rounds_done n i p d)

-- A worker whose queue was closed stops after two rounds for each queued task, one for the task
-- that it runs, and one more.
pub rounds_stop :
    (n i : ℕ) (p : Pool)
    → IsClosing i p
    → work (p.workers i) < n
    → ((rounds n i p).workers i).done ≡ true
unfolding rounds
rounds_stop zero i p c h = absurd (omega arith)
rounds_stop (suc n) i p c h =
    let (c', next) = worker_round-Advances i p c in
    elim next [
      | inl d ↦ rounds_done n i (worker_round i p).1 d
      | inr less ↦ rounds_stop n i (worker_round i p).1 c' (omega arith)
    ]
