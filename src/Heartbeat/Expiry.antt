-- ===== src/Heartbeat/Expiry.antt =====
-- heartbeat.go: when a connection expires.
use ramix.Heartbeat.{ActivityClock, refresh, alive, check_heartbeat}
use ramix.Connection.Requests.{
  CloseReason, operation_heartbeat, deadline_exceeded, request_close_if_open, closed_by,
  close_matching-wins, close_matching-refused, is_refused,
}
use ramix.Connection.{NetConnection}
use ramix.Prelude.Int.{ltb_ℤ, ◌+ℤ◌, pos}
use ramix.Prelude.{
  Bool, ◌≤◌, not, ◌≡◌, false, if◌then◌else◌, true, ◌&&◌, ◌==◌, Bool-cases, inl, inr, ℕ, sym,
  if_false, arith, leb, ap, ◌∙◌, ◌+◌, if_true,
}

-- The reason of an expiry.
abbrev pub expired : CloseReason
expired = record { operation = operation_heartbeat; cause = deadline_exceeded }

close_if_open :
    (c : NetConnection CloseReason)
    → c.state ≤ 3
    → c.transport_once ≡ false
    → request_close_if_open expired c ≡ (if c.state == 0 then closed_by expired c else c)
unfolding request_close_if_open
close_if_open c bound fresh = elim (Bool-cases (c.state == 0)) [
  | inl e ↦
      ap (λ (x : Bool × NetConnection CloseReason). x.1)
        (close_matching-wins expired true c (open_wins c.state e) fresh)
      ∙ sym (if_true _ _ e)
  | inr e ↦
      ap (λ (x : Bool × NetConnection CloseReason). x.1)
        (close_matching-refused expired true c (late_refused c.state bound e))
      ∙ sym (if_false _ _ e)
]
  where
    open_wins : (n : ℕ) → (n == 0) ≡ true → is_refused true n ≡ false
    open_wins n e = ground arith

    late_refused : (n : ℕ) → n ≤ 3 → (n == 0) ≡ false → is_refused true n ≡ true
    late_refused n h e = ground arith

due :
    (last timeout now : ℕ)
    → not (ltb_ℤ (pos now) (pos last +ℤ pos timeout)) ≡ leb (last + timeout) now
unfolding ◌+ℤ◌
due last timeout now = ground arith

check_case :
    (is_alive due : Bool) (c : NetConnection CloseReason)
    → not is_alive ≡ due
    → c.state ≤ 3
    → c.transport_once ≡ false
    → (if is_alive then c else request_close_if_open expired c)
      ≡ (if due && c.state == 0 then closed_by expired c else c)
check_case true due c e bound fresh = sym (if_false _ _ (ap (λ d. d && c.state == 0) (sym e)))
check_case false due c e bound fresh =
    close_if_open c bound fresh ∙ ap (λ d. if d && c.state == 0 then closed_by expired c else c) e

-- A tick at the time `now`, after an activity at `last`, closes the connection with the heartbeat's
-- reason exactly where the connection is open and `now` is not before `last` and the timeout;
-- otherwise it changes nothing, so that a connection that drains is left to the drain.
pub check_heartbeat_lem :
    (last timeout now : ℕ) (clock : ActivityClock) (c : NetConnection CloseReason)
    → c.state ≤ 3
    → c.transport_once ≡ false
    → check_heartbeat (pos timeout) (pos now) (refresh (pos last) clock) c
      ≡ (if leb (last + timeout) now && c.state == 0 then closed_by expired c else c)
unfolding check_heartbeat alive refresh
check_heartbeat_lem last timeout now clock c bound fresh =
    check_case (ltb_ℤ (pos now) (pos last +ℤ pos timeout)) (leb (last + timeout) now) c
      (due last timeout now) bound fresh
