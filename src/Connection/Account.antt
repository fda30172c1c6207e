-- ===== src/Connection/Account.antt =====
-- connection.go: the account of the messages that Send accepts, kept by the calls of Send, the close
-- and a write.
use ramix.Connection.{
  NetConnection, WriterPoint, writer_draining, writer_done, begin_send, put_message,
  request_close_matching, close_transport, run_close, stop_sends, write_outgoing,
}
use ramix.Connection.Close.{drain_if_open-le}
use ramix.Prelude.{
  ℕ, Bool, ◌≤◌, List, arith, ◌≡◌, ◌++◌, length, true, false, ◌≢◌, [], ◌<◌, Bool-cases, not, ◌-◌,
  ◌∷◌, refl, ◌||◌, ltb, ◌==◌, ◌∙◌, inl, leb, ◌&&◌, ap, sym, Result, if_true, append_assoc,
  length-append, inr, if_false, ltb→lt,
}
use mathlib.Core.Path.{subst}

-- The account of the messages, and what the writer's points say.
pub record IsAccount (state : ℕ) (accepting : Bool) (senders capacity : ℕ)
    (outgoing : List (List ℕ)) (stopped drain : Bool) (writer : WriterPoint)
    (accepted written failed : List (List ℕ)) : Type 0 where
  pub kept : accepted ≡ written ++ (failed ++ outgoing)
  pub bound : length outgoing ≤ capacity
  pub shut : stopped ≡ true → accepting ≡ false
  pub quiet : drain ≡ true → (stopped ≡ true) × (senders ≡ 0)
  pub drains : writer ≡ writer_draining → drain ≡ true
  pub unfailed : writer ≢ writer_done → failed ≡ []
  pub finished : writer ≡ writer_done → state < 2 → (drain ≡ true) × (outgoing ≡ []) × (failed ≡ [])

module _ {Reason : Type 0} where
  abbrev pub Account : NetConnection Reason → Type 0
  Account c =
      IsAccount c.state c.accepting_sends c.senders c.capacity c.outgoing c.send_stopped
        c.drain_writer c.writer c.accepted c.written c.failed

  -- A state further on keeps the account.
  pub later :
      (c : NetConnection Reason) (n : ℕ)
      → c.state ≤ n
      → Account c
      → Account (record c { state = n })
  later c n le a = record {
    kept = a.kept;
    bound = a.bound;
    shut = a.shut;
    quiet = a.quiet;
    drains = a.drains;
    unfailed = a.unfailed;
    finished = λ h below. a.finished h (omega arith);
  }

  pub transport-Account : (c : NetConnection Reason) → Account c → Account (close_transport c)
  unfolding close_transport
  transport-Account c a = elim (Bool-cases c.transport_once) [
    | inl e ↦ subst Account (sym (if_true _ _ e)) a
    | inr e ↦ subst Account (sym (if_false _ _ e)) a
  ]

  -- A call of Send comes or goes.
  pub begin_send-Account : (c : NetConnection Reason) → Account c → Account (begin_send c).1
  unfolding begin_send
  begin_send-Account c a = elim (Bool-cases (not c.accepting_sends || leb 2 c.state)) [
    | inl e ↦
        subst (λ (x : Result (Unit {0}) × NetConnection Reason). Account x.1) (sym (if_true _ _ e))
          a
    | inr e ↦
        subst (λ (x : Result (Unit {0}) × NetConnection Reason). Account x.1) (sym (if_false _ _ e))
          (record {
            kept = a.kept;
            bound = a.bound;
            shut = a.shut;
            quiet = λ h. absurd (let f = a.shut (a.quiet h).0 in open_gate c.accepting_sends _ e f);
            drains = a.drains;
            unfailed = a.unfailed;
            finished = a.finished;
          })
  ]
    where
      open_gate : (gate other : Bool) → (not gate || other) ≡ false → gate ≡ false → ⊥
      open_gate true other h f = cc
      open_gate false other h f = cc

  pub leave-Account :
      (c : NetConnection Reason)
      → Account c
      → 0 < c.senders
      → Account (record c { senders = c.senders - 1 })
  leave-Account c a some_sender = record {
    kept = a.kept;
    bound = a.bound;
    shut = a.shut;
    quiet = λ h. absurd (let f = (a.quiet h).1 in omega arith);
    drains = a.drains;
    unfailed = a.unfailed;
    finished = a.finished;
  }

  pub put_message-Account :
      (c : NetConnection Reason) (message : List ℕ)
      → 0 < c.senders
      → Account c
      → Account (put_message message c)
  unfolding put_message
  put_message-Account c message some_sender a =
      elim (Bool-cases (ltb (length c.outgoing) c.capacity)) [
        | inl e ↦ subst Account (sym (if_true _ _ e)) (record {
          kept =
              ap (λ t. t ++ (message ∷ [])) a.kept
              ∙ append_assoc c.written (c.failed ++ c.outgoing) (message ∷ [])
              ∙ ap (λ t. c.written ++ t) (append_assoc c.failed c.outgoing (message ∷ []));
          bound = omega (arith, length-append c.outgoing (message ∷ []), ltb→lt _ _ e);
          shut = a.shut;
          quiet = λ h. absurd (let f = (a.quiet h).1 in omega arith);
          drains = a.drains;
          unfailed = a.unfailed;
          finished = λ h below. absurd (let f = (a.quiet (a.finished h below).0).1 in omega arith);
        })
        | inr e ↦ subst Account (sym (if_false _ _ e)) a
      ]

  pub request-Account :
      (c : NetConnection Reason) (reason : Reason) (only_open : Bool)
      → Account c
      → Account (request_close_matching reason only_open c).1
  unfolding request_close_matching
  request-Account c reason only_open a =
      elim (Bool-cases (c.state == 3 || c.state == 2 || (only_open && not (c.state == 0)))) [
        | inl e ↦ subst (λ (x : Bool × NetConnection Reason). Account x.1) (sym (if_true _ _ e)) a
        | inr e ↦
            subst (λ (x : Bool × NetConnection Reason). Account x.1) (sym (if_false _ _ e))
              (record {
                kept = a.kept;
                bound = a.bound;
                shut = a.shut;
                quiet = a.quiet;
                drains = a.drains;
                unfailed = a.unfailed;
                finished = λ h below. absurd (omega arith);
              })
      ]

  pub run_close-Account :
      (reason : Reason) (c : NetConnection Reason) → Account c → Account (run_close reason c)
  unfolding run_close
  run_close-Account reason c a = transport-Account _ (record {
    kept = a.kept;
    bound = a.bound;
    shut = λ h. refl;
    quiet = a.quiet;
    drains = a.drains;
    unfailed = a.unfailed;
    finished = a.finished;
  })

  pub stop_sends-Account : (c : NetConnection Reason) → Account c → Account (stop_sends c)
  unfolding stop_sends
  stop_sends-Account c a = elim (Bool-cases c.send_stopped) [
    | inl e ↦ subst Account (sym (if_true _ _ e)) a
    | inr e ↦ subst Account (sym (if_false _ _ e)) (record {
      kept = a.kept;
      bound = a.bound;
      shut = λ h. refl;
      quiet = λ h. (refl, (a.quiet h).1);
      drains = a.drains;
      unfailed = a.unfailed;
      finished = λ h below. a.finished h (let le = drain_if_open-le c.state in omega arith);
    })
  ]

  pub write-Account :
      (c : NetConnection Reason) (message : List ℕ) (rest : List (List ℕ))
      → c.writer ≢ writer_done
      → c.outgoing ≡ message ∷ rest
      → Account c
      → Account (write_outgoing message rest c)
  unfolding write_outgoing
  write-Account c message rest active e a = record {
    kept =
        a.kept
        ∙ ap (λ f. c.written ++ (f ++ c.outgoing)) (a.unfailed active)
        ∙ ap (λ q. c.written ++ q) e
        ∙ sym (append_assoc c.written (message ∷ []) rest)
        ∙ ap (λ f. (c.written ++ (message ∷ [])) ++ (f ++ rest)) (sym (a.unfailed active));
    bound = omega (arith, a.bound, ap length e);
    shut = a.shut;
    quiet = a.quiet;
    drains = a.drains;
    unfailed = a.unfailed;
    finished = λ h below. absurd (active h);
  }
