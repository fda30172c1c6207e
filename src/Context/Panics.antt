-- ===== src/Context/Panics.antt =====
-- recovery.go, context.go: what Recovery does with the panics of the handlers behind it.
use ramix.Context.{
  Action, act, raise, Handler, started, acted, answered, panicked, new_context, chain_loop, next,
  run_body, run_handler, recover, recovery, Context, Outcome, ChainEvent, write, advance, follow,
  returned,
}
use ramix.Prelude.{
  List, ℕ, ◌∷◌, false, ◌≡◌, [], refl, ◌++◌, map, length, suc, zero, drop, ◌+◌, ◌≤◌, arith,
  get_elem?, some, ap, ◌∙◌, Option, none, ◌-◌, length-append,
}
use mathlib.Core.Path.{subst}

-- A body that acts, and then goes on.
abbrev pub acts_then : List ℕ → List Action → List Action
acts_then [] later = later
acts_then (n ∷ ns) later = act n ∷ acts_then ns later

-- A handler that acts and returns, and one that acts and panics.
abbrev pub quiet : List ℕ → Handler
quiet ns = record { recovers = false; body = acts_then ns [] }

abbrev pub failing : List ℕ → List Action → Handler
failing ns later = record { recovers = false; body = acts_then ns (raise ∷ later) }

-- The log with the acts of a handler behind it, and with those of the handlers number `k`, `suc k`
-- and so on, each started first.
abbrev pub act_log : List ℕ → List ChainEvent → List ChainEvent
act_log [] log = log
act_log (n ∷ ns) log = act_log ns (log ++ (acted n ∷ []))

abbrev pub start_log : ℕ → List ℕ → List ChainEvent → List ChainEvent
start_log k ns log = act_log ns (log ++ (started k ∷ []))

abbrev pub quiet_log : ℕ → List (List ℕ) → List ChainEvent → List ChainEvent
quiet_log k [] log = log
quiet_log k (ns ∷ rest) log = quiet_log (suc k) rest (start_log k ns log)

run_acts :
    (next_call : Context → Outcome) (ns : List ℕ) (later : List Action) (c : Context)
    → run_body next_call (acts_then ns later) c
      ≡ run_body next_call later (record c { log = act_log ns c.log })
unfolding run_body
run_acts next_call [] later c = refl
run_acts next_call (n ∷ ns) later c = run_acts next_call ns later (write (acted n) c)

elem_at :
    {A : Type 0} (k : ℕ) (xs : List A) (x : A) (rest : List A)
    → drop k xs ≡ x ∷ rest
    → (get_elem? xs k ≡ some x) × (drop (suc k) xs ≡ rest)
elem_at zero [] x rest e = absurd (cc)
elem_at zero (y ∷ ys) x rest e = (cc, cc)
elem_at (suc k) [] x rest e = absurd (cc)
elem_at (suc k) (y ∷ ys) x rest e = elem_at k ys x rest e

-- One turn of the loop.
turn :
    (k fuel : ℕ) (h : Handler) (handlers : List Handler) (log : List ChainEvent)
    → get_elem? handlers k ≡ some h
    → let later = λ (after : Context). chain_loop fuel handlers (advance after) in
      chain_loop (suc fuel) handlers (record { moves = suc k; log = log })
      ≡ follow (run_handler later h (record { moves = suc k; log = log ++ (started k ∷ []) })) later
unfolding chain_loop
turn k fuel h handlers log e =
    let later = λ (after : Context). chain_loop fuel handlers (advance after) in
    let c : Context = record { moves = suc k; log = log ++ (started k ∷ []) } in
    let same : k ≡ suc k - 1 = omega arith in
    subst
      (λ n.
        elim (get_elem? handlers n) [
          | none ↦ returned (record { moves = suc k; log = log })
          | some h ↦
              follow (run_handler later h (record { moves = suc k; log = log ++ (started n ∷ []) }))
                later
        ]
        ≡ follow (run_handler later h c) later)
      same
      (ap
        (λ (o : Option Handler). elim o [
          | none ↦ returned (record { moves = suc k; log = log })
          | some h ↦ follow (run_handler later h c) later
        ])
        e)

quiet_turn :
    (later : Context → Outcome) (ns : List ℕ) (c : Context)
    → follow (run_handler later (quiet ns) c) later ≡ later (record c { log = act_log ns c.log })
unfolding run_handler run_body
quiet_turn later ns c = ap (λ o. follow o later) (run_acts later ns [] c)

failing_turn :
    (later : Context → Outcome) (ns : List ℕ) (behind : List Action) (c : Context)
    → follow (run_handler later (failing ns behind) c) later
      ≡ panicked (record c { log = act_log ns c.log })
unfolding run_handler run_body
failing_turn later ns behind c = ap (λ o. follow o later) (run_acts later ns (raise ∷ behind) c)

-- The end in handler number `k`, which panics after its acts.
abbrev pub fallen : ℕ → List ℕ → List ChainEvent → Context
fallen k ns log = record { moves = suc k; log = start_log k ns log }

-- The loop passes quiet handlers and ends at the first that fails.
fails_at :
    (k fuel : ℕ) (passed : List (List ℕ)) (ns : List ℕ) (behind : List Action)
    (rest handlers : List Handler) (log : List ChainEvent)
    → drop k handlers ≡ map quiet passed ++ (failing ns behind ∷ rest)
    → length passed ≤ fuel
    → chain_loop (suc fuel) handlers (record { moves = suc k; log = log })
      ≡ panicked (fallen (k + length passed) ns (quiet_log k passed log))
fails_at k fuel [] ns behind rest handlers log e le =
    let same : k ≡ k + 0 = omega arith in
    subst
      (λ n.
        chain_loop (suc fuel) handlers (record { moves = suc k; log = log })
        ≡ panicked (fallen n ns log))
      same
      (turn k fuel (failing ns behind) handlers log
          (elem_at k handlers (failing ns behind) rest e).0
        ∙ failing_turn (λ (after : Context). chain_loop fuel handlers (advance after)) ns behind _)
fails_at k zero (ms ∷ passed) ns behind rest handlers log e le = absurd (omega arith)
fails_at k (suc fuel) (ms ∷ passed) ns behind rest handlers log e le =
    let (here, below) = elem_at k handlers (quiet ms) _ e in
    let same : suc k + length passed ≡ k + length (ms ∷ passed) = omega arith in
    turn k (suc fuel) (quiet ms) handlers log here
    ∙ quiet_turn (λ (after : Context). chain_loop (suc fuel) handlers (advance after)) ms _
    ∙ subst
        (λ n.
          chain_loop (suc fuel) handlers (record { moves = suc (suc k); log = start_log k ms log })
          ≡ panicked (fallen n ns (quiet_log (suc k) passed (start_log k ms log))))
        same
        (fails_at (suc k) fuel passed ns behind rest handlers (start_log k ms log) below
          (omega arith))

drop_passed :
    {A B : Type 0} (f : A → B) (passed : List A) (x : B) (rest : List B)
    → drop (suc (length passed)) (map f passed ++ (x ∷ rest)) ≡ rest
drop_passed f [] x rest = refl
drop_passed f (y ∷ passed) x rest = drop_passed f passed x rest

passed_le :
    {A B : Type 0} (f : A → B) (passed : List A) (rest : List B)
    → length passed ≤ length (map f passed ++ rest)
passed_le f [] rest = omega arith
passed_le f (x ∷ passed) rest = omega (arith, passed_le f passed rest)

-- Recovery as the first handler, with handlers behind it that only act, of which two panic after
-- their acts, whatever these would do further and whatever follows. The first panic is answered
-- with code 500, and the loop of the outer Next, which is outside Recovery, starts the handlers
-- behind it all the same; the second panic is recovered by nothing and ends the chain.
pub recovery_once :
    (passed between : List (List ℕ)) (ns ms : List ℕ) (first second : List Action)
    (rest : List Handler)
    → let n = suc (length passed) in
      let answered_log =
        start_log n ns (quiet_log 1 passed (started 0 ∷ [])) ++ (answered 500 ∷ []) in
      next
        (recovery
          ∷ (map quiet passed
              ++ (failing ns first ∷ (map quiet between ++ (failing ms second ∷ rest)))))
        new_context
      ≡ panicked (fallen (suc n + length between) ms (quiet_log (suc n) between answered_log))
unfolding next chain_loop run_handler run_body recover
recovery_once passed between ns ms first second rest =
    ap (λ o. follow (recover (follow o (run_body later []))) later) first_panic
    ∙ fails_at (suc (suc (length passed))) (length handlers) between ms second rest handlers _
        (drop_passed quiet passed (failing ns first) tail) enough
  where
    tail : List Handler
    tail = map quiet between ++ (failing ms second ∷ rest)

    handlers : List Handler
    handlers = recovery ∷ (map quiet passed ++ (failing ns first ∷ tail))

    later : Context → Outcome
    later after = chain_loop (suc (length handlers)) handlers (advance after)

    first_panic :
        chain_loop (suc (length handlers)) handlers (record { moves = 2; log = started 0 ∷ [] })
        ≡ panicked (fallen (suc (length passed)) ns (quiet_log 1 passed (started 0 ∷ [])))
    first_panic =
        let same : 1 + length passed ≡ suc (length passed) = omega arith in
        subst
          (λ k.
            chain_loop (suc (length handlers)) handlers (record { moves = 2; log = started 0 ∷ [] })
            ≡ panicked (fallen k ns (quiet_log 1 passed (started 0 ∷ []))))
          same
          (fails_at 1 (length handlers) passed ns first tail handlers (started 0 ∷ []) refl
            (omega (arith, passed_le quiet passed (failing ns first ∷ tail))))

    enough : length between ≤ length handlers
    enough = omega (
      arith,
      passed_le quiet between (failing ms second ∷ rest),
      length-append (map quiet passed) (failing ns first ∷ tail),
    )
