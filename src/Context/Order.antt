-- ===== src/Context/Order.antt =====
-- context.go: the order in which Next starts the handlers of a chain.
use ramix.Context.{
  Action, call_next, raise, act, Handler, ChainEvent, started, acted, answered, Context, Outcome,
  returned, panicked, exhausted, new_context, write, advance, follow, run_body, recover,
  run_handler, chain_loop, next,
}
use ramix.Prelude.{
  ℕ, List, [], ◌++◌, ◌≡◌, ◌≤◌, ◌∷◌, arith, ◌-◌, ap, ◌<◌, ◌∙◌, suc, append-nil, zero, refl,
  Bool-cases, inl, if_true, inr, if_false, get_elem?, length, none, some, Option-cases,
}
use Prim.Native.Nat.{min}

-- The numbers below `n`, in order.
abbrev pub upto : ℕ → List ℕ
upto zero = []
upto (suc n) = upto n ++ (n ∷ [])

-- The handlers that a log says were started.
abbrev pub starts : List ChainEvent → List ℕ
starts [] = []
starts (started i ∷ rest) = i ∷ starts rest
starts (acted _ ∷ rest) = starts rest
starts (answered _ ∷ rest) = starts rest

starts-append : (xs ys : List ChainEvent) → starts (xs ++ ys) ≡ starts xs ++ starts ys
starts-append [] ys = refl
starts-append (started i ∷ xs) ys = ap (λ t. i ∷ t) (starts-append xs ys)
starts-append (acted _ ∷ xs) ys = starts-append xs ys
starts-append (answered _ ∷ xs) ys = starts-append xs ys

-- While a handler runs, the handlers up to `step` were started, each once and in order.
abbrev InOrder : ℕ → Context → Type 0
InOrder n c = starts c.log ≡ upto (min c.moves n)

-- At the head of the loop the handler at `step` is still to be started.
abbrev AtHead : ℕ → Context → Type 0
AtHead n c = (k : ℕ) × (c.moves ≡ suc k) × (starts c.log ≡ upto (min k n))

-- What a part of the chain leaves behind, from `m` moves on.
abbrev Kept : ℕ → ℕ → Outcome → Type 0
Kept n m (returned c) = InOrder n c × (m ≤ c.moves)
Kept n m (panicked c) = InOrder n c × (m ≤ c.moves)
Kept n m exhausted = ⊥

-- The same for a whole loop, which returns only past the last handler.
abbrev Ended : ℕ → ℕ → Outcome → Type 0
Ended n m (returned c) = InOrder n c × (m ≤ c.moves) × (n < c.moves)
Ended n m (panicked c) = InOrder n c × (m ≤ c.moves)
Ended n m exhausted = ⊥

Ended-Kept : (n m : ℕ) (o : Outcome) → Ended n m o → Kept n m o
Ended-Kept n m (returned c) (order, more, _) = (order, more)
Ended-Kept n m (panicked c) kept = kept
Ended-Kept n m exhausted kept = kept

weaken : (n : ℕ) {m k : ℕ} (o : Outcome) → m ≤ k → Kept n k o → Kept n m o
weaken n (returned c) le (order, more) = (order, omega arith)
weaken n (panicked c) le (order, more) = (order, omega arith)
weaken n exhausted le kept = kept

InOrder-act : (n : ℕ) (c : Context) (k : ℕ) → InOrder n c → InOrder n (write (acted k) c)
InOrder-act n c k order = starts-append c.log (acted k ∷ []) ∙ append-nil (starts c.log) ∙ order

InOrder-answer : (n : ℕ) (c : Context) (k : ℕ) → InOrder n c → InOrder n (write (answered k) c)
InOrder-answer n c k order =
    starts-append c.log (answered k ∷ []) ∙ append-nil (starts c.log) ∙ order

AtHead-advance : (n : ℕ) (c : Context) → InOrder n c → AtHead n (advance c)
AtHead-advance n c order = (c.moves, refl, order)

-- The handler that a loop starts is the next one.
InOrder-start :
    (n : ℕ) (c : Context)
    → AtHead n c
    → c.moves - 1 < n
    → InOrder n (write (started (c.moves - 1)) c)
InOrder-start n c (k, here, order) below =
    starts-append c.log (started (c.moves - 1) ∷ [])
    ∙ rw order (rw (all_below, one_more, before) refl)
  where
    all_below : min k n ≡ k
    all_below = omega arith

    one_more : min c.moves n ≡ suc k
    one_more = omega arith

    before : c.moves - 1 ≡ k
    before = omega arith

module _ (n m : ℕ) (next_call : Context → Outcome)
    (nested : (c : Context) → InOrder n c → m ≤ c.moves → Kept n m (next_call c)) where
  Kept-follow :
      (o : Outcome) (rest : Context → Outcome)
      → ((c : Context) → InOrder n c → m ≤ c.moves → Kept n m (rest c))
      → Kept n m o
      → Kept n m (follow o rest)
  Kept-follow (returned c) rest go (order, more) = go c order more
  Kept-follow (panicked c) rest go kept = kept
  Kept-follow exhausted rest go kept = kept

  Kept-run_body :
      (body : List Action) (c : Context)
      → InOrder n c
      → m ≤ c.moves
      → Kept n m (run_body next_call body c)
  unfolding run_body
  Kept-run_body [] c order more = (order, more)
  Kept-run_body (call_next ∷ rest) c order more =
      Kept-follow (next_call c) (run_body next_call rest) (Kept-run_body rest) (nested c order more)
  Kept-run_body (raise ∷ rest) c order more = (order, more)
  Kept-run_body (act k ∷ rest) c order more =
      Kept-run_body rest (write (acted k) c) (InOrder-act n c k order) more

  Kept-recover : (o : Outcome) → Kept n m o → Kept n m (recover o)
  unfolding recover
  Kept-recover (returned c) kept = kept
  Kept-recover (panicked c) (order, more) = (InOrder-answer n c 500 order, more)
  Kept-recover exhausted kept = kept

  Kept-run_handler :
      (h : Handler) (c : Context) → InOrder n c → m ≤ c.moves → Kept n m (run_handler next_call h c)
  unfolding run_handler
  Kept-run_handler h c order more = elim (Bool-cases h.recovers) [
    | inl h_yes ↦ rw (if_true _ _ h_yes) (Kept-recover _ (Kept-run_body h.body c order more))
    | inr h_no ↦ rw (if_false _ _ h_no) (Kept-run_body h.body c order more)
  ]

-- A look-up past the end finds nothing, and only there.
get_elem?-none : {A : Type 0} (xs : List A) (i : ℕ) → get_elem? xs i ≡ none → length xs ≤ i
get_elem?-none [] i e = omega arith
get_elem?-none (x ∷ xs) zero e = cc
get_elem?-none (x ∷ xs) (suc i) e = omega (arith, get_elem?-none xs i e)

get_elem?-some :
    {A : Type 0} (xs : List A) (i : ℕ) {x : A} → get_elem? xs i ≡ some x → i < length xs
get_elem?-some [] i e = cc
get_elem?-some (x ∷ xs) zero e = omega arith
get_elem?-some (x ∷ xs) (suc i) e = omega (arith, get_elem?-some xs i e)

InOrder-end : (n : ℕ) (c : Context) → AtHead n c → n ≤ c.moves - 1 → InOrder n c × (n < c.moves)
InOrder-end n c (k, here, order) past = (order ∙ ap upto same, omega arith)
  where
    same : min k n ≡ min c.moves n
    same = omega arith

Ended-follow :
    (n m : ℕ) (o : Outcome) (rest : Context → Outcome)
    → ((c : Context) → InOrder n c → m ≤ c.moves → Ended n m (rest c))
    → Kept n m o
    → Ended n m (follow o rest)
Ended-follow n m (returned c) rest go (order, more) = go c order more
Ended-follow n m (panicked c) rest go kept = kept
Ended-follow n m exhausted rest go kept = kept

Ended-weaken : (n : ℕ) {m k : ℕ} (o : Outcome) → m ≤ k → Ended n k o → Ended n m o
Ended-weaken n (returned c) le (order, more, past) = (order, omega arith, past)
Ended-weaken n (panicked c) le (order, more) = (order, omega arith)
Ended-weaken n exhausted le kept = kept

-- One turn: the handler, which may call Next, and the rest of the chain.
turn-Ended :
    (n : ℕ) (c : Context) (h : Handler) (rest : Context → Outcome)
    → AtHead n c
    → c.moves - 1 < n
    → ((d : Context) → InOrder n d → c.moves ≤ d.moves → Ended n c.moves (rest d))
    → Ended n c.moves (follow (run_handler rest h (write (started (c.moves - 1)) c)) rest)
turn-Ended n c h rest head below after = Ended-follow n c.moves _ rest after (
    Kept-run_handler n c.moves rest
      (λ d order more. Ended-Kept n c.moves (rest d) (after d order more)) h _
      (InOrder-start n c head below) (omega arith))

-- Every turn of the loop moves `step`, so that the fuel lasts until it is past the chain.
chain_loop-Ended :
    (fuel : ℕ) (handlers : List Handler) (c : Context)
    → AtHead (length handlers) c
    → suc (length handlers) - c.moves < fuel
    → Ended (length handlers) c.moves (chain_loop fuel handlers c)
unfolding chain_loop
chain_loop-Ended zero handlers c head enough = absurd (omega arith)
chain_loop-Ended (suc fuel) handlers c head enough =
    elim (Option-cases (get_elem? handlers (c.moves - 1))) [
      | inl e ↦
          rw (Ended, e)
            (let (order, past) = InOrder-end n c head (get_elem?-none handlers _ e) in
              (order, omega arith, past))
      | inr (h, e) ↦
          rw (Ended, e)
            (let below = get_elem?-some handlers (c.moves - 1) e in
              turn-Ended n c h (λ d. chain_loop fuel handlers (advance d)) head below
                (λ d order more.
                  Ended-weaken n (chain_loop fuel handlers (advance d)) (omega arith) (
                    chain_loop-Ended fuel handlers (advance d) (AtHead-advance n d order)
                      (omega arith))))
    ]
  where
    n : ℕ
    n = length handlers

-- What a call of Next leaves behind: it never hangs; the handlers it started are the first ones of
-- the chain, each started once and in order, even where handlers call Next again; and where it
-- returns, none is left out.
pub data Ran (handlers : List Handler) : Outcome → Type 0 where
  ran_all : (c : Context) → starts c.log ≡ upto (length handlers) → Ran handlers (returned c)
  ran_some :
      (c : Context) (k : ℕ)
      → k ≤ length handlers
      → starts c.log ≡ upto k
      → Ran handlers (panicked c)

Ended-Ran : (handlers : List Handler) (o : Outcome) → Ended (length handlers) 1 o → Ran handlers o
Ended-Ran handlers (returned c) (order, more, past) =
    ran_all c
      (order ∙ ap upto (let e : min c.moves (length handlers) ≡ length handlers = omega arith in e))
Ended-Ran handlers (panicked c) (order, more) =
    ran_some c (min c.moves (length handlers)) (omega arith) order
Ended-Ran handlers exhausted kept = absurd kept

-- Next on a new context, for any chain whose handlers call Next any number of times, panic or
-- recover: it never hangs, the handlers that it starts are the first ones of the chain, each
-- started once and in order, and where it returns every handler was started.
pub next-Ran : (handlers : List Handler) → Ran handlers (next handlers new_context)
unfolding next
next-Ran handlers = Ended-Ran handlers _ (
    chain_loop-Ended (suc (suc (length handlers))) handlers (advance new_context)
      (0, refl, ap upto (let e : 0 ≡ min 0 (length handlers) = omega arith in e)) (omega arith))
