-- ===== src/Writer.antt =====
-- tcp_connection.go: writeFull, the write of all of a message. An io.Writer is not under src/: its
-- answers, a count and perhaps an error for each call, are the argument.
pub mod Full
mod Tests
use ramix.Prelude.{
  ℕ, Option, List, Bool, some, ◌∷◌, take, if◌then◌else◌, drop, ◌||◌, ◌==◌, length, [], ◌++◌, none,
}
use ramix.Prelude.Int.{ℤ, ltb_ℤ, pos_part, pos}
use ramix.Connection.Requests.{Cause}

pub record Answer : Type 0 where
  pub written : ℤ
  pub failed : Option Cause

-- `short_write` and `no_progress` are io.ErrShortWrite and io.ErrNoProgress; `waiting` is no Go
-- value: the writer has not answered yet.
pub data WriteResult : Type 0 where
  written_all short_write no_progress waiting : WriteResult
  write_failed : Cause → WriteResult

-- `if written < 0 || written > len(data)`
abbrev pub out_of_range : ℤ → ℕ → Bool
out_of_range written len = ltb_ℤ written (pos 0) || ltb_ℤ (pos len) written

-- The tests behind a count in range; `later` is the rest of the loop.
abbrev pub after_write : Option Cause → ℕ → List ℕ → List ℕ × WriteResult → List ℕ × WriteResult
after_write (some cause) n bytes later = (take n bytes, write_failed cause)
after_write none n bytes later =
    if n == 0 then ([], no_progress) else (take n bytes ++ later.0, later.1)

-- The loop, over the answers; with the bytes that the writer says it took, in order.
unfoldable pub write_full : List Answer → List ℕ → List ℕ × WriteResult
write_full answers [] = ([], written_all)
write_full [] (byte ∷ rest) = ([], waiting)
write_full (answer ∷ answers) (byte ∷ rest) =
    let bytes = byte ∷ rest in
    let n = pos_part answer.written in
    let later = write_full answers (drop n bytes) in
    if out_of_range answer.written (length bytes)
    then ([], short_write)
    else after_write answer.failed n bytes later
