-- ===== src/Session/WebSocket.antt =====
-- ws_connection.go: the reader of a WebSocket connection, whose messages hold whole frames.
use ramix.Codec
use ramix.Frame
use ramix.Session.{
  Environment, Session, End, reading, ended, crashed, handle_request, count_message,
  report_connection_error, request_close_of, go_on,
}
use ramix.Session.Tcp.{Reader, is_stopping}
use ramix.Prelude.{
  ℕ, Result, List, if◌then◌else◌, Bool, ◌||◌, ok, ◌∷◌, true, ltb, err, length, not, [], ◌==◌, false,
  invalid_frame, panic, stuck,
}
use ramix.Connection.Requests.{
  Cause, ConnectionOperation, try_request_close, operation_read, operation_task, web_socket_close,
  sentinel, operation_protocol, net_closed, CloseReason,
}
use ramix.Frame.{FrameDecoder}
use ramix.Prelude.Int.{ℤ}
use ramix.Codec.{new_request, Message}
use ramix.Heartbeat.{refresh}

-- A call of ReadMessage: an error, or a message and the time of the activity.
pub data SocketRead : Type 0 where
  failed_read : Cause → SocketRead
  read_message : Bool → List ℕ → ℤ → SocketRead

-- The errors that end a connection in order: closed locally, or by the peer with the codes of
-- CloseNormalClosure and CloseGoingAway.
abbrev pub is_orderly : Cause → Bool
is_orderly net_closed = true
is_orderly (web_socket_close code) = code == 1000 || code == 1001
is_orderly _ = false

module _ {H : Type 0} where
  -- The close is asked for, and reported where this call was the first.
  unfoldable pub fail : ConnectionOperation → Cause → Session H → Session H
  fail operation cause s =
      let reason : CloseReason = record { operation = operation; cause = cause } in
      let (won, conn) = try_request_close reason s.conn in
      let closed = record s { conn = conn } in
      if won then report_connection_error reason closed else closed

  abbrev pub after_task :
      Result (Unit {0}) × Session H → (Session H → End × Session H) → End × Session H
  after_task (ok _, s) rest = rest s
  after_task (err e, s) rest =
      if is_stopping e then (ended, s) else (ended, fail operation_task (sentinel e) s)
  after_task (panic, s) rest = (crashed, s)
  after_task (stuck, s) rest = (crashed, s)

module _ {H : Type 0} (env : Environment H) where
  abbrev pub handle_message :
      Result Message → Session H → (Session H → End × Session H) → End × Session H
  handle_message (ok m) s rest =
      after_task (handle_request env (new_request m) (count_message m s)) rest
  handle_message (err e) s rest = (ended, fail operation_protocol (sentinel e) s)
  handle_message panic s rest = (crashed, s)
  handle_message stuck s rest = (crashed, s)

  unfoldable pub handle_frames : List (List ℕ) → Session H → End × Session H
  handle_frames [] s = (reading, s)
  handle_frames (frame ∷ frames) s = handle_message (Codec.decode frame) s (handle_frames frames)

  abbrev pub handle_decoded : FrameDecoder × Result (List (List ℕ)) → Session H → End × Session H
  handle_decoded (d, ok frames) s =
      if ltb 0 (length d.bytes)
      then (ended, fail operation_protocol (sentinel invalid_frame) s)
      else handle_frames frames s
  handle_decoded (d, err e) s = (ended, fail operation_protocol (sentinel e) s)
  handle_decoded (d, panic) s = (crashed, s)
  handle_decoded (d, stuck) s = (crashed, s)

  unfoldable pub socket_round : SocketRead → Reader → Session H → Reader × (End × Session H)
  socket_round (failed_read cause) reader s = (
    reader,
    if s.conn.read_cancelled || s.conn.force_cancelled
        then (ended, s)
        else if is_orderly cause
        then (ended, request_close_of (record { operation = operation_read; cause = cause }) s)
        else (ended, fail operation_read cause s),
  )
  socket_round (read_message is_binary bytes time) reader s =
      if not is_binary || length bytes == 0
      then (reader, (ended, fail operation_protocol (sentinel invalid_frame) s))
      else (let decoded = Frame.decode reader.decoder bytes in
          (
            record { decoder = decoded.0; clock = refresh time reader.clock },
            handle_decoded decoded s,
          ))

  unfoldable pub web_socket_reader : List SocketRead → Reader → Session H → End × Session H
  web_socket_reader [] reader s = (reading, s)
  web_socket_reader (read ∷ reads) reader s =
      let (reader', outcome) = socket_round read reader s in
      go_on outcome (web_socket_reader reads reader')
