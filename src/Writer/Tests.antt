-- ===== src/Writer/Tests.antt =====
-- Writers on concrete answers.
use ramix.Writer.{Answer, write_full, ◌∷◌}
use ramix.Writer.Full.{write_full-Delivered, Delivered, took}
use ramix.Prelude.{List, ◌∷◌, [], some, arith}
use ramix.Prelude.Int.{pos}
use ramix.Connection.Requests.{net_closed}

-- A writer that takes two bytes, then fails having taken one.
abbrev two_answers : List Answer
two_answers = took 2 ∷ record { written = pos 1; failed = some net_closed } ∷ took 1 ∷ took 1 ∷ []

write_full-Delivered_example :
    Delivered (7 ∷ 8 ∷ 9 ∷ 10 ∷ []) (write_full two_answers (7 ∷ 8 ∷ 9 ∷ 10 ∷ []))
write_full-Delivered_example = write_full-Delivered two_answers (7 ∷ 8 ∷ 9 ∷ 10 ∷ []) (omega arith)
