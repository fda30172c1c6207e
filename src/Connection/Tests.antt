-- ===== src/Connection/Tests.antt =====
-- Connections on concrete steps.
use ramix.Connection.{
  NetConnection, new_net_connection, begin_send, put_message, stop_sends, close_drain_writer,
  write_outgoing, begin_writer_drain, end_writer, request_close_matching, run_close, step_send,
  step_put, step_request, step_close, step_stop, step_drain, step_write, step_drains, step_drained,
  Steps, done, more, close_transport, ◌∷◌, ◌≡◌,
}
use ramix.Connection.Close.{close_once}
use ramix.Connection.Sends.{accepted_lem, drained_lem}
use ramix.Prelude.{
  ℕ, ◌∷◌, false, ◌≡◌, ◌≤◌, [], ◌++◌, err, some, refl, arith, length, connection_closed,
}

-- A connection with room for two messages, whose closes have numbers as reasons.
abbrev new_one : NetConnection ℕ
new_one = new_net_connection 2

abbrev with_message : NetConnection ℕ
with_message = put_message (1 ∷ 2 ∷ []) (begin_send new_one).1

abbrev stopped_one : NetConnection ℕ
stopped_one = close_drain_writer (stop_sends with_message)

abbrev drained_one : NetConnection ℕ
drained_one = end_writer (write_outgoing (1 ∷ 2 ∷ []) [] (begin_writer_drain stopped_one))

to_message : Steps new_one with_message
unfolding new_net_connection begin_send
to_message = more (more (done new_one) (step_send new_one)) (step_put _ (1 ∷ 2 ∷ []) (omega arith))

to_drained : Steps new_one drained_one
unfolding new_net_connection begin_send put_message stop_sends close_drain_writer write_outgoing
to_drained =
    more
      (more
        (more
          (more (more to_message (step_stop with_message))
            (step_drain (stop_sends with_message) refl refl))
          (step_drains stopped_one refl refl))
        (step_write (begin_writer_drain stopped_one) (1 ∷ 2 ∷ []) [] (λ e. cc) refl))
      (step_drained _ refl refl)

abbrev closed_one : NetConnection ℕ
closed_one = run_close 7 (request_close_matching 7 false with_message).1

to_closed : Steps new_one closed_one
unfolding new_net_connection begin_send put_message request_close_matching
to_closed = more (more to_message (step_request with_message 7 false)) (step_close _ 7 refl)

accepted_lem_example :
    (with_message.accepted ≡ with_message.written ++ (with_message.failed ++ with_message.outgoing))
    × (length with_message.failed ≤ 1)
    × (length with_message.outgoing ≤ with_message.capacity)
accepted_lem_example = accepted_lem 2 to_message

drained_lem_example :
    (drained_one.accepted ≡ drained_one.written)
    × (drained_one.senders ≡ 0)
    × ((begin_send drained_one).0 ≡ err connection_closed)
unfolding new_net_connection begin_send put_message stop_sends close_drain_writer write_outgoing
drained_lem_example = drained_lem 2 to_drained refl (omega arith)

close_once_example :
    (closed_one.state ≤ closed_one.state)
    × (closed_one.close_reason ≡ some 7)
    × (closed_one.transport_closes ≤ 1)
unfolding new_net_connection begin_send put_message request_close_matching run_close close_transport
close_once_example = close_once 2 7 to_closed refl (done closed_one)
