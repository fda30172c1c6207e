-- ===== src/Context/Tests.antt =====
-- Runs of handler chains on concrete handlers.
use ramix.Context.{
  Handler, act, call_next, raise, recovery, next, new_context, panicked, ◌∷◌, started, answered,
  acted,
}
use ramix.Context.Order.{next-Ran, Ran}
use ramix.Context.Panics.{recovery_once, quiet, failing}
use ramix.Prelude.{false, ◌∷◌, [], ◌≡◌}

-- A middleware that calls Next twice, between effects of its own.
abbrev twice : Handler
twice = record { recovers = false; body = act 1 ∷ call_next ∷ act 2 ∷ call_next ∷ [] }

abbrev panicking : Handler
panicking = record { recovers = false; body = raise ∷ [] }

abbrev plain : Handler
plain = record { recovers = false; body = act 3 ∷ [] }

next-Ran_example :
    Ran
      (recovery ∷ twice ∷ panicking ∷ plain ∷ [])
      (next (recovery ∷ twice ∷ panicking ∷ plain ∷ []) new_context)
next-Ran_example = next-Ran (recovery ∷ twice ∷ panicking ∷ plain ∷ [])

recovery_once_example :
    next
      (recovery ∷ quiet (5 ∷ []) ∷ failing (6 ∷ []) [] ∷ failing [] (act 7 ∷ []) ∷ plain ∷ [])
      new_context
    ≡ panicked (record {
      moves = 4;
      log = started 0 ∷ started 1 ∷ acted 5 ∷ started 2 ∷ acted 6 ∷ answered 500 ∷ started 3 ∷ [];
    })
recovery_once_example = recovery_once ((5 ∷ []) ∷ []) [] (6 ∷ []) [] [] (act 7 ∷ []) (plain ∷ [])
