-- ===== src/Connection/Sends.antt =====
-- connection.go: what becomes of the messages that Send accepts.
use ramix.Connection.{
  NetConnection, writer_looping, writer_draining, writer_done, new_net_connection, drain_if_open,
  begin_send, give_up_send, request_close_matching, quiesce_reads, close_drain_writer, fail_write,
  finalize, Step, step_send, step_put, step_give_up, step_request, step_close, step_quiesce,
  step_stop, step_drain, step_write, step_fail, step_forced, step_drains, step_drained,
  step_finalize, Steps, done, more, put_message, run_close, close_transport, stop_sends,
  write_outgoing,
}
use ramix.Connection.Account.{
  IsAccount, Account, later, transport-Account, begin_send-Account, leave-Account,
  put_message-Account, request-Account, run_close-Account, stop_sends-Account, write-Account,
}
use ramix.Connection.Close.{Closing, reachable-Closing, drain_if_open-le}
use ramix.Prelude.{
  ℕ, List, ◌<◌, arith, ◌≡◌, ◌∷◌, true, false, ◌++◌, err, refl, Bool, [], length, connection_closed,
  ◌==◌, ◌≤◌, ◌∙◌, ◌||◌, ap, ◌&&◌, append-nil, sym, Result, append_assoc, if_true, Bool-cases, not,
  leb, inl, inr, if_false, if◌then◌else◌, ltb,
}
use mathlib.Core.Path.{subst}

module _ {Reason : Type 0} where
  -- A failed write is on the account, and asks for a close.
  fail-Account :
      (c : NetConnection Reason) (reason : Reason) (message : List ℕ) (rest : List (List ℕ))
      → c.outgoing ≡ message ∷ rest
      → Account c
      → Account (fail_write reason message rest c)
  unfolding fail_write request_close_matching
  fail-Account c reason message rest e a =
      elim (Bool-cases (c.state == 3 || c.state == 2 || (false && not (c.state == 0)))) [
        | inl closing ↦
            subst (λ (x : Bool × NetConnection Reason). Account x.1) (sym (if_true _ _ closing))
              (after_failure c.state (late c.state (not (c.state == 0)) closing))
        | inr early ↦
            subst (λ (x : Bool × NetConnection Reason). Account x.1) (sym (if_false _ _ early))
              (after_failure 2 (omega arith))
      ]
    where
      late : (n : ℕ) (b : Bool) → (n == 3 || n == 2 || (false && b)) ≡ true → 2 ≤ n
      late n b h = ground arith

      after_failure :
          (n : ℕ)
          → 2 ≤ n
          → IsAccount n c.accepting_sends c.senders c.capacity rest c.send_stopped c.drain_writer
              writer_done c.accepted c.written
              (c.failed ++ (message ∷ []))
      after_failure n le = record {
        kept =
            a.kept
            ∙ ap (λ q. c.written ++ (c.failed ++ q)) e
            ∙ ap (λ q. c.written ++ q) (sym (append_assoc c.failed (message ∷ []) rest));
        bound = omega (arith, a.bound, ap length e);
        shut = a.shut;
        quiet = a.quiet;
        drains = λ h. absurd (let f : writer_done ≡ writer_draining = h in cc);
        unfailed = λ h. absurd (h refl);
        finished = λ h below. absurd (omega arith);
      }

  -- The writer ends: forced, which only a close does, or with its queue drained.
  end-Account :
      (c : NetConnection Reason)
      → (c.state < 2 → (c.drain_writer ≡ true) × (c.outgoing ≡ []) × (c.failed ≡ []))
      → Account c
      → Account (record c { writer = writer_done })
  end-Account c all_done a = record {
    kept = a.kept;
    bound = a.bound;
    shut = a.shut;
    quiet = a.quiet;
    drains = λ h. absurd (let f : writer_done ≡ writer_draining = h in cc);
    unfailed = λ h. absurd (h refl);
    finished = λ h below. all_done below;
  }

  finalize-Account : (c : NetConnection Reason) → Account c → Account (finalize c)
  unfolding finalize
  finalize-Account c a =
      let b = transport-Account c a in
      record {
        kept = b.kept;
        bound = b.bound;
        shut = b.shut;
        quiet = b.quiet;
        drains = b.drains;
        unfailed = b.unfailed;
        finished = λ h below. absurd (omega arith);
      }

  -- Every step keeps the account.
  Step-Account : {c d : NetConnection Reason} → Closing c → Account c → Step c d → Account d
  unfolding give_up_send quiesce_reads close_drain_writer
  Step-Account ok_c a (step_send c) = begin_send-Account c a
  Step-Account ok_c a (step_put c message h) = put_message-Account c message h a
  Step-Account ok_c a (step_give_up c h) = leave-Account c a h
  Step-Account ok_c a (step_request c reason only_open) = request-Account c reason only_open a
  Step-Account ok_c a (step_close c reason e) = run_close-Account reason c a
  Step-Account ok_c a (step_quiesce c) =
      later c (drain_if_open c.state) (drain_if_open-le c.state) a
  Step-Account ok_c a (step_stop c) = stop_sends-Account c a
  Step-Account ok_c a (step_drain c h e) = record {
    kept = a.kept;
    bound = a.bound;
    shut = a.shut;
    quiet = λ _. (h, e);
    drains = λ _. refl;
    unfailed = a.unfailed;
    finished = λ at below. (refl, (a.finished at below).1, (a.finished at below).2);
  }
  Step-Account ok_c a (step_write c message rest h e) = write-Account c message rest h e a
  Step-Account ok_c a (step_fail c reason message rest h e) = fail-Account c reason message rest e a
  Step-Account ok_c a (step_forced c h forced) =
      end-Account c (λ below. absurd (let f = ok_c.no_force below in cc)) a
  Step-Account ok_c a (step_drains c h e) = record {
    kept = a.kept;
    bound = a.bound;
    shut = a.shut;
    quiet = a.quiet;
    drains = λ _. e;
    unfailed = λ _. a.unfailed (λ f. cc);
    finished = λ f below. absurd (let g : writer_draining ≡ writer_done = f in cc);
  }
  Step-Account ok_c a (step_drained c h e) =
      end-Account c (λ below. (a.drains h, e, a.unfailed (λ f. cc))) a
  Step-Account ok_c a (step_finalize c h e) = finalize-Account c a

  reachable-Account :
      (capacity : ℕ) {c : NetConnection Reason} → Steps (new_net_connection capacity) c → Account c
  unfolding new_net_connection
  reachable-Account capacity (done c) = record {
    kept = refl;
    bound = omega arith;
    shut = λ h. absurd (let f : false ≡ true = h in cc);
    quiet = λ h. absurd (let f : false ≡ true = h in cc);
    drains = λ h. absurd (let f : writer_looping ≡ writer_draining = h in cc);
    unfailed = λ h. refl;
    finished = λ h. absurd (let f : writer_looping ≡ writer_done = h in cc);
  }
  reachable-Account capacity (more steps step) =
      Step-Account (reachable-Closing capacity steps) (reachable-Account capacity steps) step

  -- At most one write has failed.
  abbrev AtMostOne : NetConnection Reason → Type 0
  AtMostOne c = length c.failed ≤ 1

  either :
      (b : Bool) (x y : NetConnection Reason)
      → AtMostOne x
      → AtMostOne y
      → AtMostOne (if b then x else y)
  either true x y p q = p
  either false x y p q = q

  either_pair {ℓ} :
      {A : Type ℓ} (b : Bool) (x y : A × NetConnection Reason)
      → AtMostOne x.1
      → AtMostOne y.1
      → AtMostOne (if b then x else y).1
  either_pair true x y p q = p
  either_pair false x y p q = q

  -- No step after the writer's end fails a write.
  Step-failed : {c d : NetConnection Reason} → Account c → AtMostOne c → Step c d → AtMostOne d
  unfolding begin_send put_message give_up_send request_close_matching run_close close_transport
      quiesce_reads stop_sends close_drain_writer write_outgoing fail_write finalize
  Step-failed a le (step_send c) = either_pair (not c.accepting_sends || leb 2 c.state) _ _ le le
  Step-failed a le (step_put c message h) = either (ltb (length c.outgoing) c.capacity) _ _ le le
  Step-failed a le (step_give_up c h) = le
  Step-failed a le (step_request c reason only_open) =
      either_pair (c.state == 3 || c.state == 2 || (only_open && not (c.state == 0))) _ _ le le
  Step-failed a le (step_close c reason e) = either c.transport_once _ _ le le
  Step-failed a le (step_quiesce c) = le
  Step-failed a le (step_stop c) = either c.send_stopped _ _ le le
  Step-failed a le (step_drain c h e) = le
  Step-failed a le (step_write c message rest h e) = le
  Step-failed a le (step_fail c reason message rest h e) =
      let only : AtMostOne (record c {
        outgoing = rest;
        failed = c.failed ++ (message ∷ []);
        writer = writer_done;
      }) =
        omega (arith, ap (λ f. length (f ++ (message ∷ []))) (a.unfailed h)) in
      either_pair (c.state == 3 || c.state == 2 || (false && not (c.state == 0))) _ _ only only
  Step-failed a le (step_forced c h forced) = le
  Step-failed a le (step_drains c h e) = le
  Step-failed a le (step_drained c h e) = le
  Step-failed a le (step_finalize c h e) = either c.transport_once _ _ le le

  reachable-failed :
      (capacity : ℕ) {c : NetConnection Reason}
      → Steps (new_net_connection capacity) c
      → length c.failed ≤ 1
  unfolding new_net_connection
  reachable-failed capacity (done c) = omega arith
  reachable-failed capacity (more steps step) =
      Step-failed (reachable-Account capacity steps) (reachable-failed capacity steps) step

  -- In every interleaving of a connection's goroutines, the messages that Send accepted are, in
  -- order, those written, those whose write failed, of which there is at most one, and those that
  -- still wait, of which there are never more than the buffer holds.
  pub accepted_lem :
      (capacity : ℕ) {c : NetConnection Reason}
      → Steps (new_net_connection capacity) c
      → (c.accepted ≡ c.written ++ (c.failed ++ c.outgoing))
        × (length c.failed ≤ 1)
        × (length c.outgoing ≤ c.capacity)
  accepted_lem capacity steps =
      let a = reachable-Account capacity steps in (a.kept, reachable-failed capacity steps, a.bound)

  -- Where a connection's writer has ended and no close has begun, every message that Send accepted
  -- was written, in order, and no Send is under way or can be accepted any more.
  pub drained_lem :
      (capacity : ℕ) {c : NetConnection Reason}
      → Steps (new_net_connection capacity) c
      → c.writer ≡ writer_done
      → c.state < 2
      → (c.accepted ≡ c.written) × (c.senders ≡ 0) × ((begin_send c).0 ≡ err connection_closed)
  unfolding begin_send
  drained_lem capacity {c = c} steps ended below =
      let a = reachable-Account capacity steps in
      let (drain, empty, unfailed) = a.finished ended below in
      let (stopped, no_sender) = a.quiet drain in
      (
        a.kept
            ∙ ap (λ f. c.written ++ (f ++ c.outgoing)) unfailed
            ∙ ap (λ q. c.written ++ q) empty
            ∙ append-nil c.written,
        no_sender,
        ap (λ (x : Result (Unit {0}) × NetConnection Reason). x.0)
            (if_true _ _ (ap (λ gate. not gate || leb 2 c.state) (a.shut stopped))),
      )
