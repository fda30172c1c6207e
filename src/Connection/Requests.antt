-- ===== src/Connection/Requests.antt =====
-- connection.go, errors.go: the calls that ask for a close, whole: the state and then closeOnce.
use ramix.Connection.{NetConnection, request_close_matching, run_close, close_transport}
use ramix.Prelude.{
  ℕ, Error, Bool, true, false, ◌≡◌, none, some, suc, ◌==◌, ap, ◌||◌, if_false, if_true, ◌&&◌, ◌∙◌,
  not,
}

pub data ConnectionOperation : Type 0 where
  operation_read operation_write operation_protocol operation_heartbeat : ConnectionOperation
  operation_task operation_open_hook operation_close_hook : ConnectionOperation

-- The errors that reach a close: the sentinels, and those of the transport and the contexts.
pub data Cause : Type 0 where
  sentinel : Error → Cause
  end_of_file net_closed deadline_exceeded : Cause
  web_socket_close : ℕ → Cause
  transport_error : ℕ → Cause

pub record CloseReason : Type 0 where
  pub operation : ConnectionOperation
  pub cause : Cause

-- The caller that set the state runs closeOnce.
abbrev pub finish_close :
    CloseReason → Bool × NetConnection CloseReason → Bool × NetConnection CloseReason
finish_close reason (true, c) = (true, run_close reason c)
finish_close reason (false, c) = (false, c)

-- requestCloseMatching with no other goroutine between its two parts.
unfoldable pub close_matching :
    CloseReason → Bool → NetConnection CloseReason → Bool × NetConnection CloseReason
close_matching reason only_open c = finish_close reason (request_close_matching reason only_open c)

unfoldable pub try_request_close :
    CloseReason → NetConnection CloseReason → Bool × NetConnection CloseReason
unfolding close_matching
try_request_close reason c = close_matching reason false c

unfoldable pub request_close : CloseReason → NetConnection CloseReason → NetConnection CloseReason
unfolding try_request_close
request_close reason c = (try_request_close reason c).1

unfoldable pub request_close_if_open :
    CloseReason → NetConnection CloseReason → NetConnection CloseReason
unfolding close_matching
request_close_if_open reason c = (close_matching reason true c).1

-- The state that a close is refused in.
abbrev pub is_refused : Bool → ℕ → Bool
is_refused only_open state = state == 3 || state == 2 || (only_open && not (state == 0))

abbrev pub closed_by : CloseReason → NetConnection CloseReason → NetConnection CloseReason
closed_by reason c = record c {
  state = 2;
  closer = none;
  close_reason = some reason;
  accepting_sends = false;
  send_cancelled = true;
  read_cancelled = true;
  force_cancelled = true;
  transport_once = true;
  transport_closes = suc c.transport_closes;
}

-- A close that is not refused gives the reason, cancels the contexts and closes the transport.
pub close_matching-wins :
    (reason : CloseReason) (only_open : Bool) (c : NetConnection CloseReason)
    → is_refused only_open c.state ≡ false
    → c.transport_once ≡ false
    → close_matching reason only_open c ≡ (true, closed_by reason c)
unfolding close_matching request_close_matching run_close close_transport
close_matching-wins reason only_open c early fresh =
    ap (finish_close reason) (if_false _ _ early) ∙ ap (λ d. (true, d)) (if_false _ _ fresh)

pub close_matching-refused :
    (reason : CloseReason) (only_open : Bool) (c : NetConnection CloseReason)
    → is_refused only_open c.state ≡ true
    → close_matching reason only_open c ≡ (false, c)
unfolding close_matching request_close_matching
close_matching-refused reason only_open c late = ap (finish_close reason) (if_true _ _ late)
