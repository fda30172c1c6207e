-- ===== src/Session.antt =====
-- server.go (handleRequest, reportConnectionError), context.go (newContext): what a connection's
-- reader does for a request, with the pool and the statistics that it shares with other goroutines.
pub mod Tcp
pub mod WebSocket
pub mod Serve
pub mod TcpServes
pub mod SocketServes
mod Tests
use ramix.Prelude.{
  ℕ, Option, List, ◌++◌, length, Result, some, ◌∷◌, [], ok, none, err, update, true, panic, stuck,
}
use ramix.Pool.{accepted, panicked, silent, Task, Event, Pool, submit, refused, took}
use ramix.Transport.{Transport}
use ramix.Connection.Requests.{CloseReason, request_close}
use ramix.Codec.{Request, Message}
use ramix.Connection.{NetConnection}
use ramix.Stats.{message_received, connection_error}
use ramix.Prelude.Int.{ℤ}

-- What is fixed while the server runs: the frozen routes and the handler that answers an unknown
-- event. `others` is what other goroutines do to the pool before this reader's request with a
-- given number is submitted, and `elapsed` what time.Since will say of the handlers of that request.
pub record Environment (H : Type 0) : Type 0 where
  pub routes : ℕ → Option (List H)
  pub not_found : H
  pub others : ℕ → Pool → Pool
  pub elapsed : ℕ → ℤ

-- What newContext and handleRequest put into a task's context.
pub record RequestContext (H : Type 0) : Type 0 where
  pub task : Task
  pub request : Request
  pub handlers : List H

-- `contexts` are those made so far, `reports` the calls of the error callback; the pool holds the
-- statistics. A task's number counts this connection's requests.
pub record Session (H : Type 0) : Type 0 where
  pub id : ℕ
  pub transport : Transport
  pub conn : NetConnection CloseReason
  pub pool : Pool
  pub contexts : List (RequestContext H)
  pub reports : List CloseReason

-- Where the reader is: at its next read, returned, or ended by a panic.
pub data End : Type 0 where
  reading ended crashed : End

module _ {H : Type 0} where
  -- reportConnectionError: the error is counted and given to the callback.
  unfoldable pub report_connection_error : CloseReason → Session H → Session H
  report_connection_error reason s = record s {
    reports = s.reports ++ (reason ∷ []);
    pool = record s.pool { metrics = connection_error s.transport s.pool.metrics };
  }

  -- The routes' handlers, or the one that answers with code 404.
  unfoldable pub handlers_for : Environment H → ℕ → List H
  handlers_for env event = elim (env.routes event) [
    | some handlers ↦ handlers
    | none ↦ env.not_found ∷ []
  ]

  unfoldable pub new_request_context : Environment H → Request → Session H → RequestContext H
  unfolding handlers_for
  new_request_context env request s = record {
    task = record {
      id = length s.contexts;
      connection = some s.id;
      transport = s.transport;
      elapsed = env.elapsed (length s.contexts);
    };
    request = request;
    handlers = handlers_for env request.message.event;
  }

  -- What handleRequest returns for the outcome of submit; a refused task's context is finished.
  abbrev pub after_submit : Event × Pool → Session H → Result (Unit {0}) × Session H
  after_submit (accepted i t, p) s = (ok tt, record s { pool = p })
  after_submit (refused t e, p) s =
      (err e, record s { pool = record p { cancelled = update p.cancelled t.id true } })
  after_submit (panicked, p) s = (panic, record s { pool = p })
  after_submit (silent, p) s = (stuck, s)
  after_submit (took i t, p) s = (stuck, s)

  unfoldable pub handle_request :
      Environment H → Request → Session H → Result (Unit {0}) × Session H
  unfolding new_request_context
  handle_request env request s =
      let made = new_request_context env request s in
      after_submit (submit made.task (env.others (length s.contexts) s.pool))
        (record s { contexts = s.contexts ++ (made ∷ []) })

  -- messageReceived, on the pool's statistics.
  unfoldable pub count_message : Message → Session H → Session H
  count_message m s = record s {
    pool = record s.pool { metrics = message_received s.transport (length m.body) s.pool.metrics };
  }

  unfoldable pub request_close_of : CloseReason → Session H → Session H
  request_close_of reason s = record s { conn = request_close reason s.conn }

  -- The next rounds, where the reader is at its next read.
  abbrev pub go_on : End × Session H → (Session H → End × Session H) → End × Session H
  go_on (reading, s) rest = rest s
  go_on (ended, s) rest = (ended, s)
  go_on (crashed, s) rest = (crashed, s)
