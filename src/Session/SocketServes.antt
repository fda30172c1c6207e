-- ===== src/Session/SocketServes.antt =====
-- ws_connection.go: the reader serves messages that hold whole frames.
use ramix.Session.{Environment, Session, End, go_on}
use ramix.Session.Tcp.{Reader}
use ramix.Session.WebSocket.{
  SocketRead, read_message, fail, after_task, handle_message, handle_frames, handle_decoded,
  socket_round, web_socket_reader,
}
use ramix.Session.Serve.{received, serve, flow, served, flow_message, flow-append, flow-frames_of}
use ramix.Prelude.{
  ℕ, Error, List, Result, ◌≤◌, ◌≡◌, ◌<◌, ◌^◌, ok, ◌∷◌, true, ◌++◌, length, ◌∙◌, err, ap, [], panic,
  map, refl, stuck, if_false, sym, ◌≢◌, ==-ne, arith,
}
use ramix.Codec
use ramix.Connection.Requests.{operation_task, operation_protocol, sentinel}
use ramix.Codec.{Message}
use ramix.Prelude.Int.{ℤ}
use ramix.Frame.{FrameDecoder}
use ramix.Heartbeat.{ActivityClock, refresh}
use ramix.Frame.Feed.{concat}
use ramix.Bytes.{All, put_uint32}
use ramix.Frame.Config.{decoder_of}
use ramix.Frame.Wire.{frames_of, FitsWire, wire_settings, bytes_of, decode-frames_of}
use mathlib.Core.Path.{fun_ext}
use ramix.Bytes.Laws.{All-append}

module _ {H : Type 0} where
  -- What the reader does about a request that was refused, and about a frame that is no message.
  abbrev pub socket_refuse : Error → Session H → Session H
  socket_refuse e = fail operation_task (sentinel e)

  abbrev pub socket_reject : Error → Session H → Session H
  socket_reject e = fail operation_protocol (sentinel e)

-- A message of the peer: some encoded messages of ramix in one binary message.
abbrev pub sent_message : List Message × ℤ → SocketRead
sent_message (ms, time) = read_message true (concat (frames_of ms)) time

abbrev pub all_messages : List (List Message × ℤ) → List Message
all_messages [] = []
all_messages ((ms, time) ∷ rest) = ms ++ all_messages rest

-- What a binary message may hold: one encoded message at least, each of a fitting size.
pub record IsBatch (limit : ℕ) (batch : List Message × ℤ) : Type 0 where
  pub some_message : 0 < length batch.0
  pub fits : All (FitsWire limit) batch.0

length-frames_of : (ms : List Message) → 0 < length ms → length (concat (frames_of ms)) ≢ 0
unfolding put_uint32
length-frames_of [] h e = omega arith
length-frames_of (m ∷ ms) h e = omega arith

frames_of-append : (xs ys : List Message) → frames_of (xs ++ ys) ≡ frames_of xs ++ frames_of ys
frames_of-append [] ys = refl
frames_of-append (x ∷ xs) ys = ap (λ t. bytes_of x ∷ t) (frames_of-append xs ys)

all_messages-FitsWire :
    (limit : ℕ) (batches : List (List Message × ℤ))
    → All (IsBatch limit) batches
    → All (FitsWire limit) (all_messages batches)
all_messages-FitsWire limit [] h = tt
all_messages-FitsWire limit ((ms, time) ∷ batches) (batch, fits) =
    All-append (FitsWire limit) ms (all_messages batches) batch.fits
      (all_messages-FitsWire limit batches fits)

module _ {H : Type 0} (env : Environment H) where
  abbrev pub socket_flow : List (List ℕ) → Session H → End × Session H
  socket_flow = flow env socket_refuse socket_reject

  after_task-served :
      (x : Result (Unit {0}) × Session H) (rest : Session H → End × Session H)
      → after_task x rest ≡ served env socket_refuse socket_reject x rest
  after_task-served (ok _, s) rest = refl
  after_task-served (err e, s) rest = refl
  after_task-served (panic, s) rest = refl
  after_task-served (stuck, s) rest = refl

  handle_message-flow :
      (r : Result Message) (s : Session H) (rest : Session H → End × Session H)
      → handle_message env r s rest ≡ flow_message env socket_refuse socket_reject r s rest
  handle_message-flow (ok m) s rest = after_task-served _ rest
  handle_message-flow (err e) s rest = refl
  handle_message-flow panic s rest = refl
  handle_message-flow stuck s rest = refl

  handle_frames-flow :
      (frames : List (List ℕ)) (s : Session H) → handle_frames env frames s ≡ socket_flow frames s
  unfolding handle_frames flow
  handle_frames-flow [] s = refl
  handle_frames-flow (frame ∷ frames) s =
      handle_message-flow (Codec.decode frame) s (handle_frames env frames)
      ∙ ap (flow_message env socket_refuse socket_reject (Codec.decode frame) s)
          (fun_ext (handle_frames-flow frames))

  module _ (limit : ℕ) (hl : 8 ≤ limit) (hu : limit < 2 ^ 64) where
    abbrev wire : FrameDecoder
    wire = decoder_of (wire_settings limit) []

    -- A round on such a message: the decoder takes all of it.
    socket_round-batch :
        (batch : List Message × ℤ) (clock : ActivityClock) (s : Session H)
        → IsBatch limit batch
        → socket_round env (sent_message batch) (record { decoder = wire; clock = clock }) s ≡ (
          record { decoder = wire; clock = refresh batch.1 clock },
          socket_flow (frames_of batch.0) s,
        )
    unfolding socket_round
    socket_round-batch (ms, time) clock s batch =
        if_false _ _
          (==-ne (length (concat (frames_of ms))) 0 (λ e. length-frames_of ms batch.some_message e))
        ∙ ap
            (λ decoded. (
              record { decoder = decoded.0; clock = refresh time clock },
              handle_decoded env decoded s,
            ))
            (decode-frames_of limit ms hl hu batch.fits)
        ∙ ap (λ x. (record { decoder = wire; clock = refresh time clock }, x))
            (handle_frames-flow (frames_of ms) s)

    web_socket_reader-flow :
        (batches : List (List Message × ℤ)) (clock : ActivityClock) (s : Session H)
        → All (IsBatch limit) batches
        → web_socket_reader env
            (map sent_message batches)
            (record { decoder = wire; clock = clock })
            s
          ≡ socket_flow (frames_of (all_messages batches)) s
    unfolding web_socket_reader flow
    web_socket_reader-flow [] clock s fits = refl
    web_socket_reader-flow ((ms, time) ∷ batches) clock s (batch, fits) =
        ap
          (λ (x : Reader × (End × Session H)).
            go_on x.1 (web_socket_reader env (map sent_message batches) x.0))
          (socket_round-batch (ms, time) clock s batch)
        ∙ ap (go_on (socket_flow (frames_of ms) s))
            (fun_ext (λ t. web_socket_reader-flow batches (refresh time clock) t fits))
        ∙ sym (
            flow-append env socket_refuse socket_reject (frames_of ms)
              (frames_of (all_messages batches)) s)
        ∙ ap (λ f. socket_flow f s) (sym (frames_of-append ms (all_messages batches)))

    -- The reader of a WebSocket connection, given binary messages that each hold one or more
    -- encoded messages, hands these over one after the other as requests, up to the first that is
    -- refused; a refusal is reported where it was the one that closed the connection.
    pub web_socket_reader-serve :
        (batches : List (List Message × ℤ)) (clock : ActivityClock) (s : Session H)
        → All (IsBatch limit) batches
        → web_socket_reader env
            (map sent_message batches)
            (record { decoder = wire; clock = clock })
            s
          ≡ serve env socket_refuse socket_reject (map received (all_messages batches)) s
    web_socket_reader-serve batches clock s fits =
        web_socket_reader-flow batches clock s fits
        ∙ flow-frames_of env socket_refuse socket_reject limit (all_messages batches) s
            (all_messages-FitsWire limit batches fits)
