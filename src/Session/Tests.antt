-- ===== src/Session/Tests.antt =====
-- Readers on concrete bytes.
use ramix.Session.{Environment, Session}
use ramix.Session.Tcp.{Read, Reader, tcp_reader}
use ramix.Session.WebSocket.{web_socket_reader}
use ramix.Session.Serve.{received, serve}
use ramix.Session.TcpServes.{tcp_reader-serve, tcp_refuse, tcp_reject, IsChunk}
use ramix.Session.SocketServes.{
  web_socket_reader-serve, sent_message, all_messages, socket_refuse, socket_reject,
}
use ramix.Prelude.{
  ℕ, if◌then◌else◌, List, ◌<◌, map, ◌==◌, none, ◌∷◌, length, some, [], arith, ◌≡◌, refl,
}
use ramix.Transport.{transport_tcp}
use ramix.Frame.Config.{decoder_of}
use ramix.Bytes.{All, put_uint32}
use ramix.Connection.{new_net_connection}
use ramix.Frame.Wire.{wire_settings, FitsWire}
use ramix.Codec.{Message}
use ramix.Heartbeat.{new_activity_clock}
use ramix.Prelude.Int.{pos}
use ramix.Pool.{start, pool_of}

-- One route, for the event 5; the handlers are numbers, and no other goroutine works on the pool.
abbrev env : Environment ℕ
env = record {
  routes = λ event. if event == 5 then some (1 ∷ []) else none;
  not_found = 404;
  others = λ _ p. p;
  elapsed = λ _. pos 5;
}

-- A session over a started pool with one place in each of its two queues.
abbrev session : Session ℕ
session = record {
  id = 3;
  transport = transport_tcp;
  conn = new_net_connection 4;
  pool = start (pool_of 2 1);
  contexts = [];
  reports = [];
}

abbrev reader : Reader
reader = record { decoder = decoder_of (wire_settings 64) []; clock = new_activity_clock }

-- Two messages; the second one finds the queue full.
abbrev two_messages : List Message
two_messages =
    record { event = 5; body = 1 ∷ 2 ∷ []; body_size = 2 }
    ∷ record { event = 6; body = []; body_size = 0 }
    ∷ []

abbrev chunk : List ℕ → Read
chunk bytes = record { bytes = bytes; error = none; time = pos 9 }

-- Their bytes in three reads, which cut the first header and the second one.
abbrev three_reads : List Read
three_reads =
    chunk (5 ∷ 0 ∷ 0 ∷ [])
    ∷ chunk (0 ∷ 2 ∷ 0 ∷ 0 ∷ 0 ∷ 1 ∷ 2 ∷ 6 ∷ [])
    ∷ chunk (0 ∷ 0 ∷ 0 ∷ 0 ∷ 0 ∷ 0 ∷ 0 ∷ [])
    ∷ []

fits_two : All (FitsWire 64) two_messages
fits_two = (
  record {
    event_fits = omega arith;
    body_bytes = omega arith;
    body_fits = omega arith;
    frame_fits = omega arith;
  },
  (
    record {
      event_fits = omega arith;
      body_bytes = tt;
      body_fits = omega arith;
      frame_fits = omega arith;
    },
    tt,
  ),
)

is_chunk : (read : Read) → 0 < length read.bytes → read.error ≡ none → IsChunk read
is_chunk read h e = record { some_bytes = h; no_error = e }

tcp_reader-serve_example :
    tcp_reader env three_reads reader session
    ≡ serve env tcp_refuse tcp_reject (map received two_messages) session
unfolding put_uint32 new_net_connection
tcp_reader-serve_example =
    tcp_reader-serve env 64 two_messages three_reads new_activity_clock session (omega arith)
      (omega arith) fits_two
      (
        is_chunk _ (omega arith) refl,
        (is_chunk _ (omega arith) refl, (is_chunk _ (omega arith) refl, tt)),
      )
      refl (record { early = omega arith; fresh = refl })

web_socket_reader-serve_example :
    web_socket_reader env (map sent_message ((two_messages, pos 9) ∷ [])) reader session
    ≡ serve env socket_refuse socket_reject
        (map received (all_messages ((two_messages, pos 9) ∷ [])))
        session
web_socket_reader-serve_example =
    web_socket_reader-serve env 64 (omega arith) (omega arith) ((two_messages, pos 9) ∷ [])
      new_activity_clock session (record { some_message = omega arith; fits = fits_two }, tt)
