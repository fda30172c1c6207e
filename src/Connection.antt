-- ===== src/Connection.antt =====
-- connection.go: the life of a connection: its state, its sends, its writer and its close, as steps
-- of the goroutines that touch them. A critical section, a channel operation and a once are steps
-- of their own where the code has them apart. The transport's own results are the choice of step.
-- The hooks and the calls of the manager and the statistics are left out here; the reader is in
-- Session, the heartbeat in Heartbeat.
pub mod Close
pub mod Account
pub mod Sends
pub mod Requests
mod Tests
use ramix.Prelude.{
  ℕ, List, Bool, Option, true, Result, if◌then◌else◌, ◌-◌, none, ◌++◌, false, ◌<◌, [], not, ltb,
  ◌==◌, suc, some, ◌∷◌, ◌≡◌, ◌||◌, length, ◌≢◌, leb, ◌&&◌, err, connection_closed, ok,
}

-- connectionState is a uint32, and the code compares its values.
abbrev pub connection_open : ℕ
connection_open = 0

abbrev pub connection_draining : ℕ
connection_draining = 1

abbrev pub connection_closing : ℕ
connection_closing = 2

abbrev pub connection_closed_state : ℕ
connection_closed_state = 3

pub data WriterPoint : Type 0 where
  writer_looping writer_draining writer_done : WriterPoint

-- `Reason` is the operation and the error of a close. `senders` is the count of sendWG; `closer` is
-- the reason of the goroutine that set the state to closing and has not run closeOnce yet.
-- `accepted`, `written` and `failed` are the history: the messages that Send put into `outgoing`,
-- those that the transport took, and the one whose write failed.
pub record NetConnection (Reason : Type 0) : Type 0 where
  pub state : ℕ
  pub accepting_sends : Bool
  pub senders : ℕ
  pub capacity : ℕ
  pub outgoing : List (List ℕ)
  pub send_stopped : Bool
  pub drain_writer : Bool
  pub send_cancelled : Bool
  pub read_cancelled : Bool
  pub force_cancelled : Bool
  pub writer : WriterPoint
  pub closer : Option Reason
  pub close_reason : Option Reason
  pub transport_once : Bool
  pub transport_closes : ℕ
  pub finalized : Bool
  pub accepted : List (List ℕ)
  pub written : List (List ℕ)
  pub failed : List (List ℕ)

abbrev pub drain_if_open : ℕ → ℕ
drain_if_open state = if state == connection_open then connection_draining else state

module _ {Reason : Type 0} where
  unfoldable pub new_net_connection : ℕ → NetConnection Reason
  new_net_connection capacity = record {
    state = connection_open;
    accepting_sends = true;
    senders = 0;
    capacity = capacity;
    outgoing = [];
    send_stopped = false;
    drain_writer = false;
    send_cancelled = false;
    read_cancelled = false;
    force_cancelled = false;
    writer = writer_looping;
    closer = none;
    close_reason = none;
    transport_once = false;
    transport_closes = 0;
    finalized = false;
    accepted = [];
    written = [];
    failed = [];
  }

  -- The section of Send under sendMu.
  unfoldable pub begin_send : NetConnection Reason → Result (Unit {0}) × NetConnection Reason
  begin_send c =
      if not c.accepting_sends || leb connection_closing c.state
      then (err connection_closed, c)
      else (ok tt, record c { senders = suc c.senders })

  -- The select of Send: the message is put where there is room, or the call gives up.
  unfoldable pub put_message : List ℕ → NetConnection Reason → NetConnection Reason
  put_message message c =
      if ltb (length c.outgoing) c.capacity
      then record c {
        outgoing = c.outgoing ++ (message ∷ []);
        accepted = c.accepted ++ (message ∷ []);
        senders = c.senders - 1;
      }
      else c

  unfoldable pub give_up_send : NetConnection Reason → NetConnection Reason
  give_up_send c = record c { senders = c.senders - 1 }

  -- requestCloseMatching up to closeOnce.
  unfoldable pub request_close_matching :
      Reason → Bool → NetConnection Reason → Bool × NetConnection Reason
  request_close_matching reason only_open c =
      if c.state == connection_closed_state
        || c.state == connection_closing
        || (only_open && not (c.state == connection_open))
      then (false, c)
      else (true, record c { state = connection_closing; closer = some reason })

  unfoldable pub close_transport : NetConnection Reason → NetConnection Reason
  close_transport c =
      if c.transport_once
      then c
      else record c { transport_once = true; transport_closes = suc c.transport_closes }

  -- The body of closeOnce.
  unfoldable pub run_close : Reason → NetConnection Reason → NetConnection Reason
  run_close reason c = close_transport (record c {
    closer = none;
    close_reason = some reason;
    accepting_sends = false;
    send_cancelled = true;
    read_cancelled = true;
    force_cancelled = true;
  })

  unfoldable pub quiesce_reads : NetConnection Reason → NetConnection Reason
  quiesce_reads c = record c { state = drain_if_open c.state; read_cancelled = true }

  -- The once of stopSendsAndDrain.
  unfoldable pub stop_sends : NetConnection Reason → NetConnection Reason
  stop_sends c = if c.send_stopped then c else record c {
    state = drain_if_open c.state;
    send_stopped = true;
    accepting_sends = false;
    send_cancelled = true;
  }

  -- Its goroutine, once no call of Send is under way.
  unfoldable pub close_drain_writer : NetConnection Reason → NetConnection Reason
  close_drain_writer c = record c { drain_writer = true }

  -- The writer takes a message, and the transport takes it.
  unfoldable pub write_outgoing :
      List ℕ → List (List ℕ) → NetConnection Reason → NetConnection Reason
  write_outgoing message rest c = record c {
    outgoing = rest;
    written = c.written ++ (message ∷ []);
  }

  -- The write fails: the writer asks for a close and ends.
  unfoldable pub fail_write :
      Reason → List ℕ → List (List ℕ) → NetConnection Reason → NetConnection Reason
  fail_write reason message rest c =
      (request_close_matching reason false
        (record c { outgoing = rest; failed = c.failed ++ (message ∷ []); writer = writer_done })).1

  abbrev pub end_writer : NetConnection Reason → NetConnection Reason
  end_writer c = record c { writer = writer_done }

  abbrev pub begin_writer_drain : NetConnection Reason → NetConnection Reason
  begin_writer_drain c = record c { writer = writer_draining }

  -- The supervisor's finalizeOnce, behind the writer's end: the contexts, the transport and the state.
  unfoldable pub finalize : NetConnection Reason → NetConnection Reason
  finalize c = record (close_transport c) {
    read_cancelled = true;
    send_cancelled = true;
    force_cancelled = true;
    state = connection_closed_state;
    finalized = true;
  }

-- The steps, each where its goroutine can take it.
pub data Step {Reason : Type 0} : NetConnection Reason → NetConnection Reason → Type 0 where
  step_send : (c : NetConnection Reason) → Step c (begin_send c).1
  step_put :
      (c : NetConnection Reason) (message : List ℕ) → 0 < c.senders → Step c (put_message message c)
  step_give_up : (c : NetConnection Reason) → 0 < c.senders → Step c (give_up_send c)
  step_request :
      (c : NetConnection Reason) (reason : Reason) (only_open : Bool)
      → Step c (request_close_matching reason only_open c).1
  step_close :
      (c : NetConnection Reason) (reason : Reason)
      → c.closer ≡ some reason
      → Step c (run_close reason c)
  step_quiesce : (c : NetConnection Reason) → Step c (quiesce_reads c)
  step_stop : (c : NetConnection Reason) → Step c (stop_sends c)
  step_drain :
      (c : NetConnection Reason)
      → c.send_stopped ≡ true
      → c.senders ≡ 0
      → Step c (close_drain_writer c)
  step_write :
      (c : NetConnection Reason) (message : List ℕ) (rest : List (List ℕ))
      → c.writer ≢ writer_done
      → c.outgoing ≡ message ∷ rest
      → Step c (write_outgoing message rest c)
  step_fail :
      (c : NetConnection Reason) (reason : Reason) (message : List ℕ) (rest : List (List ℕ))
      → c.writer ≢ writer_done
      → c.outgoing ≡ message ∷ rest
      → Step c (fail_write reason message rest c)
  step_forced :
      (c : NetConnection Reason)
      → c.writer ≡ writer_looping
      → c.force_cancelled ≡ true
      → Step c (end_writer c)
  step_drains :
      (c : NetConnection Reason)
      → c.writer ≡ writer_looping
      → c.drain_writer ≡ true
      → Step c (begin_writer_drain c)
  step_drained :
      (c : NetConnection Reason)
      → c.writer ≡ writer_draining
      → c.outgoing ≡ []
      → Step c (end_writer c)
  step_finalize :
      (c : NetConnection Reason)
      → c.writer ≡ writer_done
      → c.finalized ≡ false
      → Step c (finalize c)

pub data Steps {Reason : Type 0} : NetConnection Reason → NetConnection Reason → Type 0 where
  done : (c : NetConnection Reason) → Steps c c
  more : {c d e : NetConnection Reason} → Steps c d → Step d e → Steps c e
