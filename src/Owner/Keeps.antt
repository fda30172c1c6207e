-- ===== src/Owner/Keeps.antt =====
-- connection.go, server.go: what no move of another goroutine and no call of the owner ends.
use ramix.Connection
use ramix.Owner.{
  Fleet, Move, Moves, with_conn, move_connection, move_add, move_remove, move_leave, move_finalized,
  move_pool, move_server, no_moves, and_move,
}
use ramix.Prelude.{
  ℕ, ◌≡◌, update, arith, ℕ_discrete, if_true, ==-ne, ==-eq, ◌∙◌, if_false, refl, sym, ◌≤◌, true,
}
use ramix.Connection.{
  begin_send, NetConnection, put_message, give_up_send, request_close_matching, run_close,
  close_transport, quiesce_reads, stop_sends, close_drain_writer, write_outgoing, fail_write,
  finalize, step_send, step_put, step_give_up, step_request, step_close, step_quiesce, step_stop,
  step_drain, step_write, step_fail, step_forced, step_drains, step_drained, step_finalize,
}
use ramix.Connection.Requests.{CloseReason}
use mathlib.Core.Path.{subst}
use ramix.Pool.{Pool}

-- A closed connection stays closed, and one that is closing does not open.
pub record Forward (c d : NetConnection CloseReason) : Type 0 where
  pub closed : c.state ≡ 3 → d.state ≡ 3
  pub closing : 2 ≤ c.state → 2 ≤ d.state

same_state : {c d : NetConnection CloseReason} → d.state ≡ c.state → Forward c d
same_state e = record { closed = λ h. e ∙ h; closing = λ h. omega arith }

pub Step-Forward : {c d : NetConnection CloseReason} → Connection.Step c d → Forward c d
unfolding begin_send put_message give_up_send request_close_matching run_close close_transport
    quiesce_reads stop_sends close_drain_writer write_outgoing fail_write finalize
Step-Forward (step_send c) = same_state (ground arith)
Step-Forward (step_put c message some) = same_state (ground arith)
Step-Forward (step_give_up c some) = same_state refl
Step-Forward (step_request c reason only_open) = record {
  closed = λ e. ground arith;
  closing = λ h. ground arith;
}
Step-Forward (step_close c reason closer) = same_state (ground arith)
Step-Forward (step_quiesce c) = record { closed = λ e. ground arith; closing = λ h. ground arith }
Step-Forward (step_stop c) = record { closed = λ e. ground arith; closing = λ h. ground arith }
Step-Forward (step_drain c stopped none_left) = same_state refl
Step-Forward (step_write c message rest w o) = same_state refl
Step-Forward (step_fail c reason message rest w o) = record {
  closed = λ e. ground arith;
  closing = λ h. ground arith;
}
Step-Forward (step_forced c w forced) = same_state refl
Step-Forward (step_drains c w drain) = same_state refl
Step-Forward (step_drained c w empty) = same_state refl
Step-Forward (step_finalize c w fresh) = record { closed = λ e. refl; closing = λ h. omega arith }

-- A connection of the map is replaced.
pub replaced :
    (P : NetConnection CloseReason → Type 0) (id other : ℕ) (c : NetConnection CloseReason)
    (conns : ℕ → NetConnection CloseReason)
    → (P (conns other) → P c)
    → P (conns id)
    → P (update conns other c id)
replaced P id other c conns keeps p = elim (ℕ_discrete other id) [
  | Dec.yes same ↦
      subst P (sym (if_true _ _ (==-eq same))) (keeps (subst (λ i. P (conns i)) (sym same) p))
  | Dec.no ne ↦ subst P (sym (if_false _ _ (==-ne other id ne))) p
]

-- A property of the fleet that no move and no call of the owner ends.
pub record Kept (P : Fleet → Type 0) : Type 0 where
  pub move : {f g : Fleet} → Move f g → P f → P g
  pub call :
      (other : ℕ) (c : NetConnection CloseReason) (f : Fleet)
      → Forward (f.conns other) c
      → P f
      → P (with_conn other c f)
  pub pool : (p : Pool) (f : Fleet) → P f → P (record f { pool = p })

pub Moves-Kept : {P : Fleet → Type 0} {f g : Fleet} → Kept P → Moves f g → P f → P g
Moves-Kept kept (no_moves f) p = p
Moves-Kept kept (and_move moves move) p = kept.move move (Moves-Kept kept moves p)

-- The connection is closed, or is closing at least.
abbrev pub IsClosed : ℕ → Fleet → Type 0
IsClosed id f = (f.conns id).state ≡ 3

abbrev pub IsClosing : ℕ → Fleet → Type 0
IsClosing id f = 2 ≤ (f.conns id).state

pub IsClosed-Kept : (id : ℕ) → Kept (IsClosed id)
IsClosed-Kept id = record { move = moved; call = called; pool = λ p f e. e }
  where
    called :
        (other : ℕ) (c : NetConnection CloseReason) (f : Fleet)
        → Forward (f.conns other) c
        → IsClosed id f
        → IsClosed id (with_conn other c f)
    called other c f forward =
        replaced (λ (d : NetConnection CloseReason). d.state ≡ 3) id other c f.conns forward.closed

    moved : {f g : Fleet} → Move f g → IsClosed id f → IsClosed id g
    moved (move_connection f other c step) e = called other c f (Step-Forward step) e
    moved (move_add f other) e = e
    moved (move_remove f other) e = e
    moved (move_leave f other final) e = e
    moved (move_finalized f other closed) e = e
    moved (move_pool f p) e = e
    moved (move_server f s step) e = e

pub IsClosing-Kept : (id : ℕ) → Kept (IsClosing id)
IsClosing-Kept id = record { move = moved; call = called; pool = λ p f e. e }
  where
    called :
        (other : ℕ) (c : NetConnection CloseReason) (f : Fleet)
        → Forward (f.conns other) c
        → IsClosing id f
        → IsClosing id (with_conn other c f)
    called other c f forward =
        replaced (λ (d : NetConnection CloseReason). 2 ≤ d.state) id other c f.conns forward.closing

    moved : {f g : Fleet} → Move f g → IsClosing id f → IsClosing id g
    moved (move_connection f other c step) e = called other c f (Step-Forward step) e
    moved (move_add f other) e = e
    moved (move_remove f other) e = e
    moved (move_leave f other final) e = e
    moved (move_finalized f other closed) e = e
    moved (move_pool f p) e = e
    moved (move_server f s step) e = e

-- The resources of the server are closed.
abbrev pub HasClosed : Fleet → Type 0
HasClosed f = f.resources_closed ≡ true

pub HasClosed-Kept : Kept HasClosed
HasClosed-Kept = record { move = moved; call = λ other c f forward e. e; pool = λ p f e. e }
  where
    moved : {f g : Fleet} → Move f g → HasClosed f → HasClosed g
    moved (move_connection f other c step) e = e
    moved (move_add f other) e = e
    moved (move_remove f other) e = e
    moved (move_leave f other final) e = e
    moved (move_finalized f other closed) e = e
    moved (move_pool f p) e = e
    moved (move_server f s step) e = e
