-- ===== src/Session/TcpServes.antt =====
-- tcp_connection.go: the reader serves the messages of its stream, whatever the sizes of its reads.
use ramix.Session.{
  Environment, Session, End, reading, ended, handle_request, count_message, report_connection_error,
  request_close_of, go_on,
}
use ramix.Session.Tcp.{
  Read, is_stopping, report_and_close, after_request, process_message, process_frames, after_input,
  tcp_reader, read_round, after_error, process_decoded, Reader,
}
use ramix.Session.Serve.{
  flow, served, flow_message, handle_request-conn, go_on-cong, flow-StillHas, flow-append, serve,
  received, flow-frames_of,
}
use ramix.Prelude.{
  ℕ, ◌<◌, Error, Result, List, length, if◌then◌else◌, ◌≡◌, err, none, false, leb, Bool-cases, ok,
  true, arith, inl, ap, if_true, if_false, Bool, ◌∙◌, sym, ◌∷◌, inr, panic, [], refl, stuck, map,
  ◌≤◌, ◌^◌, lt→ltb,
}
use ramix.Codec
use ramix.Frame
use ramix.Connection.Requests.{
  request_close, ConnectionOperation, operation_task, try_request_close, CloseReason, Cause,
  sentinel, operation_protocol, is_refused, close_matching-wins,
}
use ramix.Connection.{NetConnection}
use ramix.Codec.{Message, new_request}
use mathlib.Core.Path.{subst}
use ramix.Frame.{FrameDecoder}
use ramix.Frame.Feed.{feed, feed-nil, feed-ok, concat}
use ramix.Heartbeat.{ActivityClock, refresh}
use ramix.Bytes.{All}
use ramix.Frame.Wire.{FitsWire, frames_of, wire_settings, feed-frames_of}
use ramix.Frame.Config.{decoder_of}

-- A read that brought bytes and no error.
pub record IsChunk (read : Read) : Type 0 where
  pub some_bytes : 0 < length read.bytes
  pub no_error : read.error ≡ none

-- A connection that no close has touched.
pub record IsLive (c : NetConnection CloseReason) : Type 0 where
  pub early : c.state < 2
  pub fresh : c.transport_once ≡ false

request_close-state :
    (reason : CloseReason) (c : NetConnection CloseReason)
    → c.state < 2
    → c.transport_once ≡ false
    → leb 2 (request_close reason c).state ≡ true
unfolding request_close try_request_close
request_close-state reason c early fresh =
    ap (λ (x : Bool × NetConnection CloseReason). leb 2 x.1.state)
      (close_matching-wins reason false c (open_wins c.state early) fresh)
  where
    open_wins : (n : ℕ) → n < 2 → is_refused false n ≡ false
    open_wins n h = ground arith

module _ {H : Type 0} where
  -- What the reader does about a request that was refused, and about bytes that are no message.
  abbrev pub tcp_refuse : Error → Session H → Session H
  tcp_refuse e = report_and_close operation_task (sentinel e)

  abbrev pub tcp_reject : Error → Session H → Session H
  tcp_reject e s = if is_stopping e then s else report_and_close operation_protocol (sentinel e) s

  report_and_close-state :
      (operation : ConnectionOperation) (cause : Cause) (s : Session H)
      → IsLive s.conn
      → leb 2 (report_and_close operation cause s).conn.state ≡ true
  unfolding report_and_close report_connection_error request_close_of
  report_and_close-state operation cause s live = request_close-state _ s.conn live.early live.fresh

  -- The reader's part behind processInput, where Read gave no error.
  abbrev pub finish_input : Result (Unit {0}) × Session H → End × Session H
  finish_input x = after_input x (λ s. (reading, s))

module _ {H : Type 0} (env : Environment H) where
  abbrev pub tcp_flow : List (List ℕ) → Session H → End × Session H
  tcp_flow = flow env tcp_refuse tcp_reject

  after_request-served :
      (x : Result (Unit {0}) × Session H) (f : Session H → Result (Unit {0}) × Session H)
      (g : Session H → End × Session H)
      → IsLive x.1.conn
      → finish_input (f x.1) ≡ g x.1
      → finish_input (after_request x f) ≡ served env tcp_refuse tcp_reject x g
  after_request-served (ok _, s) f g live same = same
  after_request-served (err e, s) f g live same = elim (Bool-cases (is_stopping e)) [
    | inl h ↦ ap finish_input (if_true _ _ h) ∙ sym (if_true _ _ h)
    | inr h ↦
        ap finish_input (if_false _ _ h)
        ∙ if_true _ _ (report_and_close-state operation_task (sentinel e) s live)
        ∙ sym (if_false _ _ h)
  ]
  after_request-served (panic, s) f g live same = refl
  after_request-served (stuck, s) f g live same = refl

  reject_case : (e : Error) (s : Session H) → finish_input (err e, s) ≡ (ended, tcp_reject e s)
  reject_case e s = elim (Bool-cases (is_stopping e)) [
    | inl h ↦ if_true _ _ h ∙ ap (λ t. (ended, t)) (sym (if_true _ _ h))
    | inr h ↦ if_false _ _ h ∙ ap (λ t. (ended, t)) (sym (if_false _ _ h))
  ]

  message-flow :
      (r : Result Message) (s : Session H) (f : Session H → Result (Unit {0}) × Session H)
      (g : Session H → End × Session H)
      → IsLive s.conn
      → ((t : Session H) → IsLive t.conn → finish_input (f t) ≡ g t)
      → finish_input (process_message env r s f) ≡ flow_message env tcp_refuse tcp_reject r s g
  unfolding count_message
  message-flow (ok m) s f g live same =
      let x = handle_request env (new_request m) (count_message m s) in
      let still : IsLive x.1.conn =
        subst IsLive (sym (handle_request-conn env (new_request m) (count_message m s))) live in
      after_request-served x f g still (same x.1 still)
  message-flow (err e) s f g live same = reject_case e s
  message-flow panic s f g live same = refl
  message-flow stuck s f g live same = refl

  -- processInput on whole frames, and the reader's look at its result.
  process_frames-flow :
      (frames : List (List ℕ)) (s : Session H)
      → IsLive s.conn
      → finish_input (process_frames env frames s) ≡ tcp_flow frames s
  unfolding process_frames flow
  process_frames-flow [] s live = if_false _ _ (below s.conn.state live.early)
    where
      below : (n : ℕ) → n < 2 → leb 2 n ≡ false
      below n h = ground arith
  process_frames-flow (frame ∷ frames) s live =
      message-flow (Codec.decode frame) s (process_frames env frames) (tcp_flow frames) live
        (process_frames-flow frames)

  -- A round where Read brought bytes and no error.
  read_round-chunk :
      (read : Read) (d : FrameDecoder) (clock : ActivityClock) (s : Session H)
      → IsChunk read
      → read_round env read (record { decoder = d; clock = clock }) s ≡ (
        record { decoder = (Frame.decode d read.bytes).0; clock = refresh read.time clock },
        finish_input (process_decoded env (Frame.decode d read.bytes).1 s),
      )
  unfolding read_round after_error
  read_round-chunk read d clock s chunk =
      if_true _ _ (lt→ltb 0 (length read.bytes) chunk.some_bytes)
      ∙ ap
          (λ error. (
            record { decoder = (Frame.decode d read.bytes).0; clock = refresh read.time clock },
            after_input (process_decoded env (Frame.decode d read.bytes).1 s)
                (after_error error (Frame.decode d read.bytes).0),
          ))
          chunk.no_error

  -- The reader does what the frames ask for, whatever the reads.
  tcp_reader-flow :
      (reads : List Read) (d last : FrameDecoder) (clock : ActivityClock) (frames : List (List ℕ))
      (s : Session H)
      → All IsChunk reads
      → IsLive s.conn
      → feed (map (λ (read : Read). read.bytes) reads) d ≡ (last, ok frames)
      → tcp_reader env reads (record { decoder = d; clock = clock }) s ≡ tcp_flow frames s
  unfolding tcp_reader flow
  tcp_reader-flow [] d last clock frames s chunks live e =
      ap (λ f. tcp_flow f s) (feed-nil d last frames e)
  tcp_reader-flow (read ∷ reads) d last clock frames s (chunk, chunks) live e =
      let (out, rest, first, later, parts) =
        feed-ok d read.bytes (map (λ (read : Read). read.bytes) reads) last frames e in
      let d' = (Frame.decode d read.bytes).0 in
      let clock' = refresh read.time clock in
      let go : Session H → End × Session H =
        tcp_reader env reads (record { decoder = d'; clock = clock' }) in
      ap (λ (x : Reader × (End × Session H)). go_on x.1 (tcp_reader env reads x.0))
        (read_round-chunk read d clock s chunk)
      ∙ ap (λ r. go_on (finish_input (process_decoded env r s)) go) first
      ∙ ap (λ x. go_on x go) (process_frames-flow out s live)
      ∙ go_on-cong s.conn (tcp_flow out s) go (tcp_flow rest)
          (flow-StillHas env tcp_refuse tcp_reject s.conn out s refl)
          (λ t same.
            tcp_reader-flow reads d' last clock' rest t chunks (subst IsLive (sym same) live) later)
      ∙ sym (flow-append env tcp_refuse tcp_reject out rest s)
      ∙ ap (λ f. tcp_flow f s) (sym parts)

  -- The reader of a TCP connection, fed with the bytes of encoded messages in reads of any sizes,
  -- does exactly what a service of the messages does: it hands them over one after the other as
  -- requests, up to the first that is refused, and reports and closes as that refusal asks. Nothing
  -- of this depends on the sizes of the reads.
  pub tcp_reader-serve :
      (limit : ℕ) (ms : List Message) (reads : List Read) (clock : ActivityClock) (s : Session H)
      → 8 ≤ limit
      → limit < 2 ^ 64
      → All (FitsWire limit) ms
      → All IsChunk reads
      → concat (map (λ (read : Read). read.bytes) reads) ≡ concat (frames_of ms)
      → IsLive s.conn
      → tcp_reader env reads
          (record { decoder = decoder_of (wire_settings limit) []; clock = clock })
          s
        ≡ serve env tcp_refuse tcp_reject (map received ms) s
  tcp_reader-serve limit ms reads clock s hl hu fits chunks e live =
      tcp_reader-flow reads (decoder_of (wire_settings limit) []) _ clock (frames_of ms) s chunks
        live (feed-frames_of limit ms (map (λ (read : Read). read.bytes) reads) hl hu fits e)
      ∙ flow-frames_of env tcp_refuse tcp_reject limit ms s fits
