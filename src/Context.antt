-- ===== src/Context.antt =====
-- context.go, recovery.go: a context runs its chain of handlers with Next, which a handler calls
-- to run the rest of the chain inside itself. A handler is what it does that the chain can see: the
-- calls of Next, its panics, and its own effects as numbers. The keys of a context and its lock are
-- left out, as Next reads neither.
pub mod Order
pub mod Panics
mod Tests
use ramix.Prelude.{
  ℕ, List, Bool, [], ◌++◌, suc, if◌then◌else◌, true, ◌∷◌, get_elem?, length, ◌-◌, none, some, zero,
}

pub data Action : Type 0 where
  call_next raise : Action
  act : ℕ → Action

-- `recovers` says that the handler defers a call of recover which answers with code 500.
pub record Handler : Type 0 where
  pub recovers : Bool
  pub body : List Action

pub data ChainEvent : Type 0 where
  started : ℕ → ChainEvent
  acted : ℕ → ChainEvent
  answered : ℕ → ChainEvent

-- The context's `step` starts at -1 and is only incremented: `moves` counts the increments, so that
-- `step` is `moves` less one. `log` is what the handlers did, in order.
pub record Context : Type 0 where
  pub moves : ℕ
  pub log : List ChainEvent

-- `exhausted` is no Go value: it marks a loop whose fuel ran out.
pub data Outcome : Type 0 where
  returned : Context → Outcome
  panicked : Context → Outcome
  exhausted : Outcome

abbrev pub new_context : Context
new_context = record { moves = 0; log = [] }

abbrev pub write : ChainEvent → Context → Context
write e c = record c { log = c.log ++ (e ∷ []) }

abbrev pub advance : Context → Context
advance c = record c { moves = suc c.moves }

-- The rest runs where the first part returned; a panic goes through.
abbrev pub follow : Outcome → (Context → Outcome) → Outcome
follow (returned c) rest = rest c
follow (panicked c) rest = panicked c
follow exhausted rest = exhausted

-- A handler's body, for the chain's Next.
unfoldable pub run_body : (Context → Outcome) → List Action → Context → Outcome
run_body next_call [] c = returned c
run_body next_call (call_next ∷ rest) c = follow (next_call c) (run_body next_call rest)
run_body next_call (raise ∷ rest) c = panicked c
run_body next_call (act n ∷ rest) c = run_body next_call rest (write (acted n) c)

-- The deferred function of Recovery.
unfoldable pub recover : Outcome → Outcome
recover (returned c) = returned c
recover (panicked c) = returned (write (answered 500) c)
recover exhausted = exhausted

unfoldable pub run_handler : (Context → Outcome) → Handler → Context → Outcome
run_handler next_call h c =
    if h.recovers then recover (run_body next_call h.body c) else run_body next_call h.body c

-- `for ; c.step < len(c.handlers); c.step++`, where each nested Next moves the same `step`.
unfoldable pub chain_loop : ℕ → List Handler → Context → Outcome
chain_loop zero handlers c = exhausted
chain_loop (suc fuel) handlers c =
    let rest = λ (after : Context). chain_loop fuel handlers (advance after) in
    elim (get_elem? handlers (c.moves - 1)) [
      | none ↦ returned c
      | some h ↦ follow (run_handler rest h (write (started (c.moves - 1)) c)) rest
    ]

-- Each turn of a loop, nested ones included, moves `step`, so that two more than the handlers is
-- fuel enough.
unfoldable pub next : List Handler → Context → Outcome
next handlers c = chain_loop (suc (suc (length handlers))) handlers (advance c)

abbrev pub recovery : Handler
recovery = record { recovers = true; body = call_next ∷ [] }
