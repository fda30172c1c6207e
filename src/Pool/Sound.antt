-- ===== src/Pool/Sound.antt =====
-- What holds of a pool between two steps, and of a new one.
use ramix.Pool.{
  PoolState, Worker, Pool, new_worker_pool, started, is_new, new, update, pool_of, stopping,
  stopped,
}
use ramix.Prelude.{
  ℕ, Bool, ◌≡◌, length, ◌<◌, true, [], ◌≤◌, ok, Bool-cases, false, none, inl, arith, inr, refl,
  ◌==◌,
}
use mathlib.Core.Path.{subst}

abbrev pub is_open : PoolState → Bool
is_open new = true
is_open started = true
is_open _ = false

abbrev pub IsEmpty : Worker → Type 0
IsEmpty w = (w.queue ≡ []) × (w.running ≡ none)

pub record WorkerOk (capacity : ℕ) (state : PoolState) (w : Worker) : Type 0 where
  pub bounded : length w.queue ≤ capacity
  pub opened : is_open state ≡ true → w.closed ≡ false
  pub fresh : is_new state ≡ true → (w.queue ≡ []) × (w.running ≡ none)
  pub finished : w.done ≡ true → (w.closed ≡ true) × (w.queue ≡ []) × (w.running ≡ none)

pub record Inv (p : Pool) : Type 0 where
  pub some_workers : 0 < p.count
  pub intake : p.accepting ≡ true → p.state ≡ started
  pub undrained :
      is_open p.state ≡ true → (p.drain_begun ≡ false) × (p.watched ≡ false) × (p.done ≡ false)
  pub each : (i : ℕ) → WorkerOk p.capacity p.state (p.workers i)
  pub over : (i : ℕ) → i < p.count → p.done ≡ true → IsEmpty (p.workers i)

-- A change of one worker keeps what holds of each.
pub update-each {ℓ} :
    {A : Type 0} (P : A → Type ℓ) (f : ℕ → A) (i : ℕ) (a : A)
    → ((j : ℕ) → P (f j))
    → P a
    → (j : ℕ) → P (update f i a j)
update-each P f i a h ha j = elim (Bool-cases (i == j)) [
  | inl here ↦ rw here ha
  | inr there ↦ rw there (h j)
]

pub open_of_new : (s : PoolState) → is_new s ≡ true → is_open s ≡ true
open_of_new new e = refl
open_of_new started e = refl
open_of_new stopping e = cc
open_of_new stopped e = cc

-- A new pool satisfies the invariant.
pub new_worker_pool-Inv :
    (count capacity : ℕ) (p : Pool) → new_worker_pool count capacity ≡ ok p → Inv p
unfolding new_worker_pool
new_worker_pool-Inv count capacity p e = subst Inv made (fresh positive)
  where
    positive : 0 < count
    positive = ground arith

    made : pool_of count capacity ≡ p
    made = ground arith

    fresh : 0 < count → Inv (pool_of count capacity)
    fresh h = record {
      some_workers = h;
      intake = λ e. cc;
      undrained = λ _. (refl, refl, refl);
      each = λ i. record {
        bounded = omega arith;
        opened = λ _. refl;
        fresh = λ _. (refl, refl);
        finished = λ e. cc;
      };
      over = λ i _ e. (refl, refl);
    }
