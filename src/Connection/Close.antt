-- ===== src/Connection/Close.antt =====
-- connection.go: the state of a connection and its close.
use ramix.Connection.{
  NetConnection, new_net_connection, drain_if_open, begin_send, put_message, give_up_send,
  request_close_matching, close_transport, run_close, quiesce_reads, stop_sends, close_drain_writer,
  write_outgoing, fail_write, finalize, Step, step_send, step_put, step_give_up, step_request,
  step_close, step_quiesce, step_stop, step_drain, step_write, step_fail, step_forced, step_drains,
  step_drained, step_finalize, Steps, done, more, writer_done,
}
use ramix.Prelude.{
  ℕ, ◌≤◌, arith, Bool, Bool-cases, ◌≡◌, Option, some, true, ◌==◌, inl, ◌<◌, false, ◌||◌, none,
  if◌then◌else◌, ◌&&◌, sym, refl, not, if_true, inr, if_false, ap, suc, leb, Result, ltb, length,
  ◌++◌, ◌∷◌, [],
}
use mathlib.Core.Path.{subst}

-- While no close is under way there is no reason, nor any force; the transport is closed at most
-- once.
pub record IsClosing {Reason : Type 0} (state : ℕ) (closer reason : Option Reason)
    (force once : Bool) (closes : ℕ) : Type 0 where
  pub bound : state ≤ 3
  pub no_closer : state < 2 → closer ≡ none
  pub no_reason : state < 2 → reason ≡ none
  pub no_force : state < 2 → force ≡ false
  pub one_closer : (r : Reason) → closer ≡ some r → reason ≡ none
  pub open_transport : once ≡ false → closes ≡ 0
  pub shut_transport : once ≡ true → closes ≡ 1

pub drain_if_open-le : (n : ℕ) → n ≤ drain_if_open n
drain_if_open-le n = ground arith

drain_if_open-bound : (n : ℕ) → n ≤ 3 → drain_if_open n ≤ 3
drain_if_open-bound n h = ground arith

module _ {Reason : Type 0} where
  abbrev pub Closing : NetConnection Reason → Type 0
  Closing c =
      IsClosing c.state c.closer c.close_reason c.force_cancelled c.transport_once
        c.transport_closes

  -- The state goes forward, and a reason stays.
  abbrev pub Onward : NetConnection Reason → NetConnection Reason → Type 0
  Onward c d =
      (c.state ≤ d.state) × ((r : Reason) → c.close_reason ≡ some r → d.close_reason ≡ some r)

  abbrev Goes : NetConnection Reason → NetConnection Reason → Type 0
  Goes c d = Closing d × Onward c d

  stays : (c : NetConnection Reason) → Closing c → Goes c c
  stays c ok_c = (ok_c, (omega arith, λ r e. e))

  Goes-if :
      (test : Bool) (c x y : NetConnection Reason)
      → (test ≡ true → Goes c x)
      → (test ≡ false → Goes c y)
      → Goes c (if test then x else y)
  Goes-if true c x y on_x on_y = on_x refl
  Goes-if false c x y on_x on_y = on_y refl

  request-Goes :
      (reason : Reason) (only_open : Bool) (c : NetConnection Reason)
      → Closing c
      → Goes c (request_close_matching reason only_open c).1
  unfolding request_close_matching
  request-Goes reason only_open c ok_c =
      elim (Bool-cases (c.state == 3 || c.state == 2 || (only_open && not (c.state == 0)))) [
        | inl e ↦
            subst (λ (x : Bool × NetConnection Reason). Goes c x.1) (sym (if_true _ _ e))
              (stays c ok_c)
        | inr e ↦
            subst (λ (x : Bool × NetConnection Reason). Goes c x.1) (sym (if_false _ _ e))
              (let early : c.state < 2 = below_closing c.state _ ok_c.bound e in
                (
                  record {
                    bound = omega arith;
                    no_closer = λ h. absurd (omega arith);
                    no_reason = λ h. absurd (omega arith);
                    no_force = λ h. absurd (omega arith);
                    one_closer = λ r h. ok_c.no_reason early;
                    open_transport = ok_c.open_transport;
                    shut_transport = ok_c.shut_transport;
                  },
                  (omega arith, λ r h. h),
                ))
      ]
    where
      below_closing : (n : ℕ) (b : Bool) → n ≤ 3 → (n == 3 || n == 2 || b) ≡ false → n < 2
      below_closing n b bound h = ground arith

  -- closeTransport, on a connection whose other fields are in order.
  transport-Goes : (c d : NetConnection Reason) → Goes c d → Goes c (close_transport d)
  unfolding close_transport
  transport-Goes c d (ok_d, on) = elim (Bool-cases d.transport_once) [
    | inl e ↦ subst (Goes c) (sym (if_true _ _ e)) (ok_d, on)
    | inr e ↦ subst (Goes c) (sym (if_false _ _ e)) (
      record {
        bound = ok_d.bound;
        no_closer = ok_d.no_closer;
        no_reason = ok_d.no_reason;
        no_force = ok_d.no_force;
        one_closer = ok_d.one_closer;
        open_transport = λ h. absurd (let f : true ≡ false = h in cc);
        shut_transport = λ h. ap suc (ok_d.open_transport e);
      },
      on,
    )
  ]

  run_close-Goes :
      (reason : Reason) (c : NetConnection Reason)
      → c.closer ≡ some reason
      → Closing c
      → Goes c (run_close reason c)
  unfolding run_close
  run_close-Goes reason c e ok_c = transport-Goes c _ (
    record {
      bound = ok_c.bound;
      no_closer = λ h. refl;
      no_reason = λ h. absurd (let f = ok_c.no_closer h in cc);
      no_force = λ h. absurd (let f = ok_c.no_closer h in cc);
      one_closer = λ r h. absurd (let f : none ≡ some r = h in cc);
      open_transport = ok_c.open_transport;
      shut_transport = ok_c.shut_transport;
    },
    (omega arith, λ r h. absurd (let f = ok_c.one_closer reason e in cc)),
  )

  drain-Goes :
      (c : NetConnection Reason) → Closing c → Goes c (record c { state = drain_if_open c.state })
  drain-Goes c ok_c =
      let le = drain_if_open-le c.state in
      (
        record {
          bound = drain_if_open-bound c.state ok_c.bound;
          no_closer = λ h. ok_c.no_closer (omega arith);
          no_reason = λ h. ok_c.no_reason (omega arith);
          no_force = λ h. ok_c.no_force (omega arith);
          one_closer = ok_c.one_closer;
          open_transport = ok_c.open_transport;
          shut_transport = ok_c.shut_transport;
        },
        (le, λ r h. h),
      )

  finalize-Goes : (c : NetConnection Reason) → Closing c → Goes c (finalize c)
  unfolding finalize
  finalize-Goes c ok_c =
      let (ok_d, (le, kept)) = transport-Goes c c (stays c ok_c) in
      (
        record {
          bound = omega arith;
          no_closer = λ h. absurd (omega arith);
          no_reason = λ h. absurd (omega arith);
          no_force = λ h. absurd (omega arith);
          one_closer = ok_d.one_closer;
          open_transport = ok_d.open_transport;
          shut_transport = ok_d.shut_transport;
        },
        (ok_c.bound, kept),
      )

  -- Every step keeps the order of the close, and goes forward.
  Step-Goes : {c d : NetConnection Reason} → Closing c → Step c d → Closing d × Onward c d
  unfolding begin_send put_message give_up_send quiesce_reads stop_sends close_drain_writer
      write_outgoing fail_write
  Step-Goes ok_c (step_send c) = elim (Bool-cases (not c.accepting_sends || leb 2 c.state)) [
    | inl e ↦
        subst (λ (x : Result (Unit {0}) × NetConnection Reason). Goes c x.1) (sym (if_true _ _ e))
          (stays c ok_c)
    | inr e ↦
        subst (λ (x : Result (Unit {0}) × NetConnection Reason). Goes c x.1) (sym (if_false _ _ e))
          (stays c ok_c)
  ]
  Step-Goes ok_c (step_put c message h) =
      Goes-if (ltb (length c.outgoing) c.capacity) c _ c (λ _. stays c ok_c) (λ _. stays c ok_c)
  Step-Goes ok_c (step_give_up c h) = stays c ok_c
  Step-Goes ok_c (step_request c reason only_open) = request-Goes reason only_open c ok_c
  Step-Goes ok_c (step_close c reason e) = run_close-Goes reason c e ok_c
  Step-Goes ok_c (step_quiesce c) = drain-Goes c ok_c
  Step-Goes ok_c (step_stop c) =
      Goes-if c.send_stopped c c _ (λ _. stays c ok_c) (λ _. drain-Goes c ok_c)
  Step-Goes ok_c (step_drain c h e) = stays c ok_c
  Step-Goes ok_c (step_write c message rest h e) = stays c ok_c
  Step-Goes ok_c (step_fail c reason message rest h e) =
      request-Goes reason false
        (record c { outgoing = rest; failed = c.failed ++ (message ∷ []); writer = writer_done })
        ok_c
  Step-Goes ok_c (step_forced c h e) = stays c ok_c
  Step-Goes ok_c (step_drains c h e) = stays c ok_c
  Step-Goes ok_c (step_drained c h e) = stays c ok_c
  Step-Goes ok_c (step_finalize c h e) = finalize-Goes c ok_c

  Steps-Goes : {c d : NetConnection Reason} → Closing c → Steps c d → Closing d × Onward c d
  Steps-Goes ok_c (done c) = stays c ok_c
  Steps-Goes ok_c (more steps step) =
      let (ok_d, (le, kept)) = Steps-Goes ok_c steps in
      let (ok_e, (le_last, kept_last)) = Step-Goes ok_d step in
      (ok_e, (omega arith, λ r h. kept_last r (kept r h)))

  new-Closing : (capacity : ℕ) → Closing (new_net_connection {Reason = Reason} capacity)
  unfolding new_net_connection
  new-Closing capacity = record {
    bound = omega arith;
    no_closer = λ h. refl;
    no_reason = λ h. refl;
    no_force = λ h. refl;
    one_closer = λ r h. refl;
    open_transport = λ h. refl;
    shut_transport = λ h. absurd (let f : false ≡ true = h in cc);
  }

  pub reachable-Closing :
      (capacity : ℕ) {c : NetConnection Reason} → Steps (new_net_connection capacity) c → Closing c
  reachable-Closing capacity steps = (Steps-Goes (new-Closing capacity) steps).0

  closes_le : (c : NetConnection Reason) → Closing c → c.transport_closes ≤ 1
  closes_le c ok_c = elim (Bool-cases c.transport_once) [
    | inl e ↦ omega (arith, ok_c.shut_transport e)
    | inr e ↦ omega (arith, ok_c.open_transport e)
  ]

  -- In every interleaving of a connection's goroutines, once a close has a reason the state only
  -- goes forward, the reason stays, and the transport is closed at most once.
  pub close_once :
      (capacity : ℕ) {c d : NetConnection Reason} (reason : Reason)
      → Steps (new_net_connection capacity) c
      → c.close_reason ≡ some reason
      → Steps c d
      → (c.state ≤ d.state) × (d.close_reason ≡ some reason) × (d.transport_closes ≤ 1)
  close_once capacity {d = d} reason before has steps =
      let (ok_d, (le, kept)) = Steps-Goes (reachable-Closing capacity before) steps in
      (le, kept reason has, closes_le d ok_d)
