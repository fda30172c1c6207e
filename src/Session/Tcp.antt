-- ===== src/Session/Tcp.antt =====
-- tcp_connection.go: the reader of a TCP connection.
use ramix.Codec
use ramix.Frame
use ramix.Session.{
  Environment, Session, End, reading, ended, crashed, handle_request, count_message,
  report_connection_error, request_close_of, go_on,
}
use ramix.Prelude.{
  ℕ, List, Error, Result, Option, if◌then◌else◌, Bool, ok, ltb, some, ◌∷◌, true, leb, ◌||◌, length,
  err, [], false, server_stopping, not, panic, stuck, invalid_frame, none,
}
use ramix.Frame.{FrameDecoder}
use ramix.Connection.Requests.{
  Cause, ConnectionOperation, operation_protocol, operation_task, sentinel, operation_read,
  end_of_file, net_closed, CloseReason,
}
use ramix.Prelude.Int.{ℤ}
use ramix.Heartbeat.{ActivityClock, refresh}
use ramix.Codec.{new_request, Message}

-- A call of Read: the bytes, the error and the time of the activity.
pub record Read : Type 0 where
  pub bytes : List ℕ
  pub error : Option Cause
  pub time : ℤ

pub record Reader : Type 0 where
  pub decoder : FrameDecoder
  pub clock : ActivityClock

abbrev pub is_stopping : Error → Bool
is_stopping server_stopping = true
is_stopping _ = false

abbrev pub is_end : Cause → Bool
is_end end_of_file = true
is_end net_closed = true
is_end _ = false

module _ {H : Type 0} where
  -- A failed operation is reported, and then asks for a close.
  unfoldable pub report_and_close : ConnectionOperation → Cause → Session H → Session H
  report_and_close operation cause s =
      let reason : CloseReason = record { operation = operation; cause = cause } in
      request_close_of reason (report_connection_error reason s)

  -- What handleRequest's result means for processInput: `rest` handles the frames that follow.
  abbrev pub after_request :
      Result (Unit {0}) × Session H
      → (Session H → Result (Unit {0}) × Session H)
      → Result (Unit {0}) × Session H
  after_request (ok _, s) rest = rest s
  after_request (err e, s) rest =
      if is_stopping e
      then (err server_stopping, s)
      else (ok tt, report_and_close operation_task (sentinel e) s)
  after_request (panic, s) rest = (panic, s)
  after_request (stuck, s) rest = (stuck, s)

  -- The reader behind processInput: an error, a state of closing, or the rest of the round.
  abbrev pub after_input :
      Result (Unit {0}) × Session H → (Session H → End × Session H) → End × Session H
  after_input (ok _, s) rest = if leb 2 s.conn.state then (ended, s) else rest s
  after_input (err e, s) rest =
      if is_stopping e
      then (ended, s)
      else (ended, report_and_close operation_protocol (sentinel e) s)
  after_input (panic, s) rest = (crashed, s)
  after_input (stuck, s) rest = (crashed, s)

  -- The part of a round that looks at Read's error.
  unfoldable pub after_error : Option Cause → FrameDecoder → Session H → End × Session H
  after_error none d s = (reading, s)
  after_error (some cause) d s =
      if s.conn.read_cancelled || s.conn.force_cancelled
      then (ended, s)
      else if not (is_end cause)
      then (ended, report_and_close operation_read cause s)
      else if ltb 0 (length d.bytes)
      then (ended, report_and_close operation_protocol (sentinel invalid_frame) s)
      else (ended, request_close_of (record { operation = operation_read; cause = cause }) s)

module _ {H : Type 0} (env : Environment H) where
  -- A frame that was decoded; `rest` handles the frames that follow.
  abbrev pub process_message :
      Result Message
      → Session H
      → (Session H → Result (Unit {0}) × Session H)
      → Result (Unit {0}) × Session H
  process_message (ok m) s rest =
      after_request (handle_request env (new_request m) (count_message m s)) rest
  process_message (err e) s rest = (err e, s)
  process_message panic s rest = (panic, s)
  process_message stuck s rest = (stuck, s)

  -- The loop over the frames.
  unfoldable pub process_frames : List (List ℕ) → Session H → Result (Unit {0}) × Session H
  process_frames [] s = (ok tt, s)
  process_frames (frame ∷ frames) s = process_message (Codec.decode frame) s (process_frames frames)

  abbrev pub process_decoded : Result (List (List ℕ)) → Session H → Result (Unit {0}) × Session H
  process_decoded (ok frames) s = process_frames frames s
  process_decoded (err e) s = (err e, s)
  process_decoded panic s = (panic, s)
  process_decoded stuck s = (stuck, s)

  -- A round of the reader.
  unfoldable pub read_round : Read → Reader → Session H → Reader × (End × Session H)
  read_round read reader s =
      if ltb 0 (length read.bytes)
      then (let (d, r) = Frame.decode reader.decoder read.bytes in
          (
            record { decoder = d; clock = refresh read.time reader.clock },
            after_input (process_decoded r s) (after_error read.error d),
          ))
      else (reader, after_error read.error reader.decoder s)

  unfoldable pub tcp_reader : List Read → Reader → Session H → End × Session H
  tcp_reader [] reader s = (reading, s)
  tcp_reader (read ∷ reads) reader s =
      let (reader', outcome) = read_round read reader s in go_on outcome (tcp_reader reads reader')
