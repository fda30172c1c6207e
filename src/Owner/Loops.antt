-- ===== src/Owner/Loops.antt =====
-- manager.go, connection.go: what the loops of the owner keep.
use ramix.Owner.Keeps.{Kept, Moves-Kept, Forward}
use ramix.Owner.{
  Fleet, with_conn, wait_each, Others, each_connection, drain_connections, is_writer_done,
  WaitRound, wait_all, drain_pool, WaitEnd, after_waits, waited, timed_out, up_to_waits,
  quiesce_all, force_close_all, OwnerWorld, stopping_reason,
}
use ramix.Manager
use ramix.Prelude.{
  ℕ, Bool, if◌then◌else◌, List, false, ◌∷◌, arith, ◌&&◌, true, [], ◌==◌, ◌≤◌, ◌++◌, length,
}
use ramix.Connection.{
  quiesce_reads, stop_sends, NetConnection, request_close_matching, run_close, close_transport,
}
use ramix.Connection.Requests.{request_close, try_request_close, CloseReason, close_matching}
use ramix.Pool.{begin_drain, force_cancel}
use ramix.Manager.{finalization_snapshot}

pub quiesce_reads-Forward : (c : NetConnection CloseReason) → Forward c (quiesce_reads c)
unfolding quiesce_reads
quiesce_reads-Forward c = record { closed = λ e. ground arith; closing = λ h. ground arith }

stop_sends-Forward : (c : NetConnection CloseReason) → Forward c (stop_sends c)
unfolding stop_sends
stop_sends-Forward c = record { closed = λ e. ground arith; closing = λ h. ground arith }

pub request_close-closing :
    (reason : CloseReason) (c : NetConnection CloseReason) → 2 ≤ (request_close reason c).state
unfolding request_close try_request_close close_matching request_close_matching run_close
    close_transport
request_close-closing reason c = ground arith

pub request_close-Forward :
    (reason : CloseReason) (c : NetConnection CloseReason) → Forward c (request_close reason c)
unfolding request_close try_request_close close_matching request_close_matching run_close
    close_transport
request_close-Forward reason c = record {
  closed = λ e. ground arith;
  closing = λ h. request_close-closing reason c;
}

module _ {P : Fleet → Type 0} (kept : Kept P) where
  abbrev pub Others-Kept : (others : Others) (f : Fleet) → P f → P (others f).0
  Others-Kept others f = Moves-Kept kept (others f).1

  pub each_connection-Kept :
      (others : ℕ → Others) (call : NetConnection CloseReason → NetConnection CloseReason)
      (ids : List ℕ) (f : Fleet)
      → ((c : NetConnection CloseReason) → Forward c (call c))
      → P f
      → P (each_connection others call ids f)
  unfolding each_connection
  each_connection-Kept others call [] f forward p = p
  each_connection-Kept others call (other ∷ ids) f forward p =
      let g = (others other f).0 in
      each_connection-Kept others call ids (with_conn other (call (g.conns other)) g) forward (
        kept.call other (call (g.conns other)) g (forward (g.conns other))
          (Others-Kept (others other) f p))

  -- A loop that goes on or ends.
  either :
      (b : Bool) {g : Fleet} (rest : Bool × Fleet)
      → P g
      → P rest.1
      → P (if b then rest else (false, g)).1
  either true rest here later = later
  either false rest here later = here

  pub drain_connections-Kept :
      (others : ℕ → Others) (chosen : ℕ → Bool) (ids : List ℕ) (f : Fleet)
      → P f
      → P (drain_connections others chosen ids f).1
  unfolding drain_connections
  drain_connections-Kept others chosen [] f p = p
  drain_connections-Kept others chosen (other ∷ ids) f p =
      let stopped = with_conn other (stop_sends (f.conns other)) f in
      let g = (others other stopped).0 in
      let here =
        Others-Kept (others other) stopped
          (kept.call other (stop_sends (f.conns other)) f (stop_sends-Forward (f.conns other)) p) in
      either (chosen other && is_writer_done (g.conns other).writer) _ here
        (drain_connections-Kept others chosen ids g here)

  pub wait_each-Kept :
      (others : ℕ → Others) (chosen : ℕ → Bool) (ids : List ℕ) (f : Fleet)
      → P f
      → P (wait_each others chosen ids f).1
  unfolding wait_each
  wait_each-Kept others chosen [] f p = p
  wait_each-Kept others chosen (other ∷ ids) f p =
      let g = (others other f).0 in
      let here = Others-Kept (others other) f p in
      either (chosen other && (g.conns other).state == 3) _ here
        (wait_each-Kept others chosen ids g here)

  after_waits-Kept :
      (round : WaitRound) (r : Bool × Fleet) (next : Fleet → WaitEnd × Fleet)
      → P r.1
      → ((f : Fleet) → P f → P (next f).1)
      → P (after_waits round r next).1
  after_waits-Kept round (false, f) next p later = p
  after_waits-Kept round (true, f) next p later =
      behind (length (finalization_snapshot (round.before_look f).0.manager) == 0) round.changed
    where
      g : Fleet
      g = (round.before_look f).0

      here : P g
      here = Others-Kept round.before_look f p

      behind :
          (empty changed : Bool)
          → (let r : WaitEnd × Fleet =
                if empty
                then (waited, g)
                else if changed
                then next (round.before_next g).0
                else (timed_out, g) in
              P r.1)
      behind true changed = here
      behind false false = here
      behind false true = later (round.before_next g).0 (Others-Kept round.before_next g here)

  pub wait_all-Kept : (rounds : List WaitRound) (f : Fleet) → P f → P (wait_all rounds f).1
  unfolding wait_all
  wait_all-Kept [] f p = p
  wait_all-Kept (round ∷ rounds) f p =
      looked (length ids == 0) (λ h later. wait_all-Kept rounds h later)
    where
      g : Fleet
      g = (round.between_reads f).0

      ids : List ℕ
      ids = Manager.snapshot f.manager ++ finalization_snapshot g.manager

      here : P g
      here = Others-Kept round.between_reads f p

      looked :
          (empty : Bool)
          → ((h : Fleet) → P h → P (wait_all rounds h).1)
          → (let r : WaitEnd × Fleet =
                if empty
                then (waited, g)
                else after_waits round
                    (wait_each round.before_wait round.chosen ids g)
                    (wait_all rounds) in
              P r.1)
      looked true later = here
      looked false later =
          after_waits-Kept round (wait_each round.before_wait round.chosen ids g) (wait_all rounds)
            (wait_each-Kept round.before_wait round.chosen ids g here) later

  pub drain_pool-Kept :
      (others : Others) (chosen : Bool) (f : Fleet) → P f → P (drain_pool others chosen f).1
  unfolding drain_pool
  drain_pool-Kept others chosen f p = drained (chosen && g.pool.done)
    where
      g : Fleet
      g = (others (record f { pool = begin_drain f.pool })).0

      here : P g
      here =
          Others-Kept others (record f { pool = begin_drain f.pool })
            (kept.pool (begin_drain f.pool) f p)

      drained :
          (b : Bool)
          → (let r : Bool × Fleet =
                if b then (true, g) else (false, record g { pool = force_cancel g.pool }) in
              P r.1)
      drained true = here
      drained false = kept.pool (force_cancel g.pool) g here

  -- The owner up to waitAll.
  pub up_to_waits-Kept : (world : OwnerWorld) (f : Fleet) → P f → P (up_to_waits world f).1
  unfolding up_to_waits quiesce_all force_close_all
  up_to_waits-Kept world f p =
      let g = (world.before_setups f).0 in
      let p = Others-Kept world.before_setups f p in
      let p =
        each_connection-Kept world.before_quiesce quiesce_reads (Manager.snapshot g.manager) g
          quiesce_reads-Forward p in
      let drained =
        drain_pool world.before_pool world.pool_chosen (quiesce_all world.before_quiesce g) in
      let p =
        drain_pool-Kept world.before_pool world.pool_chosen (quiesce_all world.before_quiesce g)
          p in
      let sent =
        drain_connections world.before_drain world.writer_chosen
          (Manager.snapshot drained.1.manager) drained.1 in
      let p =
        drain_connections-Kept world.before_drain world.writer_chosen
          (Manager.snapshot drained.1.manager) drained.1 p in
      each_connection-Kept world.before_force (request_close stopping_reason)
        (Manager.snapshot sent.1.manager) sent.1 (request_close-Forward stopping_reason) p
