-- ===== src/Pool/Keeps.antt =====
-- What each operation keeps of a pool.
use ramix.Pool.{
  PoolState, Worker, Pool, start, stop_accepting, force_cancel, started, is_new, new, update,
  enqueue, Task, stopping, stopped, submit, take_task, finish_task, idle_step, round, worker_index,
  worker_round, drain_in, begin_drain, watch, all_done, drain_new, drain_started,
}
use ramix.Prelude.{
  ℕ, ◌≡◌, length, ◌<◌, true, [], Bool-cases, false, none, inl, arith, inr, refl, ◌==◌, ltb,
  length-append, ◌∷◌, ltb→lt, sym, List, Option, some, ap, if_true, if_false, ◌||◌, ◌&&◌, leb, suc,
  zero, not,
}
use mathlib.Core.Path.{subst}
use ramix.Pool.Sound.{Inv, IsEmpty, WorkerOk, open_of_new, update-each}

all_done_lem :
    (workers : ℕ → Worker) (n i : ℕ) → all_done workers n ≡ true → i < n → (workers i).done ≡ true
all_done_lem workers zero i e lt = absurd (omega arith)
all_done_lem workers (suc n) i e lt = elim (Bool-cases (i == n)) [
  | inl last ↦ let same : i ≡ n = ground arith in rw same (ground arith)
  | inr before ↦ all_done_lem workers n i (ground arith) (ground arith)
]

emptied : (w : Worker) → (w.closed ≡ true) × (w.queue ≡ []) × (w.running ≡ none) → IsEmpty w
emptied w h = (h.1, h.2)

module _ {p : Pool} (h : Inv p) where
  pub start-Inv : Inv (start p)
  unfolding start
  start-Inv = elim (Bool-cases (is_new p.state)) [
    | inl fresh ↦ rw fresh (record {
      some_workers = h.some_workers;
      intake = λ _. refl;
      undrained = λ _. h.undrained (open_of_new p.state fresh);
      each = λ i. ground (arith, h.each i);
      over = h.over;
    })
    | inr old ↦ rw old h
  ]

  pub stop_accepting-Inv : Inv (stop_accepting p)
  unfolding stop_accepting
  stop_accepting-Inv = record {
    some_workers = h.some_workers;
    intake = λ e. cc;
    undrained = h.undrained;
    each = h.each;
    over = h.over;
  }

  pub force_cancel-Inv : Inv (force_cancel p)
  unfolding force_cancel
  force_cancel-Inv = record {
    some_workers = h.some_workers;
    intake = h.intake;
    undrained = h.undrained;
    each = h.each;
    over = h.over;
  }

  -- A pool that takes tasks was started and is not drained.
  taking : p.accepting ≡ true → (p.drain_begun ≡ false) × (p.watched ≡ false) × (p.done ≡ false)
  taking e = h.undrained (rw (h.intake e))

  pub taking_open : p.accepting ≡ true → (i : ℕ) → (p.workers i).closed ≡ false
  taking_open e i = (h.each i).opened (rw (h.intake e))

  enqueue-Inv : (i : ℕ) (t : Task) → p.accepting ≡ true → Inv (enqueue i t p).1
  unfolding enqueue
  enqueue-Inv i t e =
      rw (taking_open e i) (elim (Bool-cases (ltb (length (p.workers i).queue) p.capacity)) [
        | inl room ↦ rw room (record {
          some_workers = h.some_workers;
          intake = h.intake;
          undrained = h.undrained;
          each = update-each (WorkerOk p.capacity p.state) p.workers i _ h.each (record {
            bounded =
                omega (arith, length-append {0} (p.workers i).queue (t ∷ []), ltb→lt _ _ room);
            opened = λ _. refl;
            fresh = λ n. absurd (cc (h.intake e));
            finished = λ d. absurd (cc (((h.each i).finished d).0, taking_open e i));
          });
          over = λ j lt d. absurd (cc (taking e).2);
        })
        | inr full ↦ rw full (record {
          some_workers = h.some_workers;
          intake = h.intake;
          undrained = h.undrained;
          each = h.each;
          over = h.over;
        })
      ])

  pub submit-Inv : (t : Task) → Inv (submit t p).1
  unfolding submit
  submit-Inv t = elim (Bool-cases p.accepting) [
    | inl e ↦ rw (if_true _ _ e) (enqueue-Inv (worker_index p t) t e)
    | inr e ↦ rw (if_false _ _ e) h
  ]

  -- A worker with less to do.
  fewer-Inv :
      (i : ℕ) (w : Worker) (q : Pool)
      → WorkerOk p.capacity p.state w
      → (p.done ≡ true → i < p.count → IsEmpty w)
      → q ≡ record p {
        workers = update p.workers i w;
        registered = q.registered;
        cancelled = q.cancelled;
        metrics = q.metrics;
      }
      → Inv q
  fewer-Inv i w q ok_w over_w e = subst Inv (sym e) (record {
    some_workers = h.some_workers;
    intake = h.intake;
    undrained = h.undrained;
    each = update-each (WorkerOk p.capacity p.state) p.workers i w h.each ok_w;
    over = λ j lt d. elim (Bool-cases (i == j)) [
      | inl here ↦ rw here (over_w d (ground arith))
      | inr there ↦ rw there (h.over j lt d)
    ];
  })

  take_task-Inv :
      (i : ℕ) (t : Task) (rest : List Task)
      → (p.workers i).queue ≡ t ∷ rest
      → (p.workers i).done ≡ false
      → i < p.count
      → is_new p.state ≡ false
      → Inv (take_task i t rest p).1
  unfolding take_task
  take_task-Inv i t rest q d lt n =
      fewer-Inv i
        (record (p.workers i) { queue = rest; running = some t; ran = not (p.cancelled t.id) }) _
        (record {
          bounded = omega (arith, (h.each i).bounded, ap (λ (l : List Task). length l) q);
          opened = (h.each i).opened;
          fresh = λ e. absurd (cc n);
          finished = λ e. absurd (cc d);
        })
        (λ e _. absurd (cc ((h.over i lt e).0, q))) refl

  finish_task-Inv : (i : ℕ) (t : Task) → Inv (finish_task i t p).1
  unfolding finish_task
  finish_task-Inv i t =
      fewer-Inv i (record (p.workers i) { running = none }) _
        (record {
          bounded = (h.each i).bounded;
          opened = (h.each i).opened;
          fresh = λ e. (((h.each i).fresh e).0, refl);
          finished = λ e. (((h.each i).finished e).0, ((h.each i).finished e).1, refl);
        })
        (λ e lt. ((h.over i lt e).0, refl)) refl

  end-Inv :
      (i : ℕ)
      → (p.workers i).queue ≡ []
      → (p.workers i).running ≡ none
      → (p.workers i).closed ≡ true
      → Inv (record p { workers = update p.workers i (record (p.workers i) { done = true }) })
  end-Inv i q r c =
      fewer-Inv i (record (p.workers i) { done = true }) _
        (record {
          bounded = (h.each i).bounded;
          opened = (h.each i).opened;
          fresh = (h.each i).fresh;
          finished = λ _. (c, q, r);
        })
        (λ e lt. h.over i lt e) refl

  idle_step-Inv :
      (i : ℕ) (queue : List Task)
      → (p.workers i).queue ≡ queue
      → (p.workers i).running ≡ none
      → (p.workers i).done ≡ false
      → i < p.count
      → is_new p.state ≡ false
      → Inv (idle_step i queue p).1
  unfolding idle_step
  idle_step-Inv i [] q r d lt n = elim (Bool-cases (p.workers i).closed) [
    | inl c ↦ rw (if_true _ _ c) (end-Inv i q r c)
    | inr c ↦ rw (if_false _ _ c) h
  ]
  idle_step-Inv i (t ∷ rest) q r d lt n = take_task-Inv i t rest q d lt n

  round-Inv :
      (i : ℕ) (running : Option Task)
      → (p.workers i).running ≡ running
      → (p.workers i).done ≡ false
      → i < p.count
      → is_new p.state ≡ false
      → Inv (round i running p).1
  unfolding round
  round-Inv i none r d lt n = idle_step-Inv i (p.workers i).queue refl r d lt n
  round-Inv i (some t) r d lt n = finish_task-Inv i t

  pub worker_round-Inv : (i : ℕ) → Inv (worker_round i p).1
  unfolding worker_round
  worker_round-Inv i = elim (Bool-cases (is_new p.state || (p.workers i).done || leb p.count i)) [
    | inl out ↦ rw (if_true _ _ out) h
    | inr live ↦
        rw (if_false _ _ live)
          (round-Inv i (p.workers i).running refl (ground arith) (ground arith) (ground arith))
  ]

  drain_in-Inv : (s : PoolState) → p.state ≡ s → Inv (drain_in s p)
  unfolding drain_in drain_new drain_started
  drain_in-Inv new e = record {
    some_workers = h.some_workers;
    intake = λ a. cc;
    undrained = λ o. cc;
    each = λ i. record {
      bounded = (h.each i).bounded;
      opened = λ o. cc;
      fresh = λ n. cc;
      finished = (h.each i).finished;
    };
    over = λ i _ _. (h.each i).fresh (rw e);
  }
  drain_in-Inv started e = record {
    some_workers = h.some_workers;
    intake = λ a. cc;
    undrained = λ o. cc;
    each = λ i. record {
      bounded = (h.each i).bounded;
      opened = λ o. cc;
      fresh = λ n. cc;
      finished = λ d. (refl, ((h.each i).finished d).1, ((h.each i).finished d).2);
    };
    over = h.over;
  }
  drain_in-Inv stopping e = record {
    some_workers = h.some_workers;
    intake = λ a. cc;
    undrained = λ o. cc e;
    each = h.each;
    over = h.over;
  }
  drain_in-Inv stopped e = record {
    some_workers = h.some_workers;
    intake = λ a. cc;
    undrained = λ o. cc e;
    each = h.each;
    over = h.over;
  }

  pub begin_drain-Inv : Inv (begin_drain p)
  unfolding begin_drain
  begin_drain-Inv = elim (Bool-cases p.drain_begun) [
    | inl e ↦ rw (if_true _ _ e) h
    | inr e ↦ rw (if_false _ _ e) (drain_in-Inv p.state refl)
  ]

  pub watch-Inv : Inv (watch p)
  unfolding watch
  watch-Inv = elim (Bool-cases (p.watched && all_done p.workers p.count)) [
    | inl e ↦ rw (if_true _ _ e) (record {
      some_workers = h.some_workers;
      intake = λ a. absurd (ground (arith, (taking a).1));
      undrained = λ o. cc;
      each = λ i. record {
        bounded = (h.each i).bounded;
        opened = λ o. cc;
        fresh = λ n. cc;
        finished = (h.each i).finished;
      };
      over = λ i lt _.
          emptied (p.workers i)
            ((h.each i).finished (all_done_lem p.workers p.count i (ground arith) lt));
    })
    | inr e ↦ rw (if_false _ _ e) h
  ]
