-- ===== src/Admission/Excess.antt =====
-- tcp_server.go, websocket_server.go: the count of connections that the goroutines can reach.
use ramix.Admission.{
  Admission, TcpPoint, at_accept, at_gate, at_open, no_connections, Step, Steps, done, more,
  tcp_count, tcp_begin, tcp_open, upgrade_begin, upgrade_count, upgrade_open, step_tcp_count,
  step_tcp_begin, step_tcp_open, step_count, step_begin, step_open, opened, next_connection_id,
}
use ramix.Prelude.{
  ℕ, true, ◌≡◌, ◌<◌, suc, ◌≤◌, ◌+◌, leb, ◌-◌, arith, false, if_false, zero, refl, ◌∙◌, ap,
}
use mathlib.Core.Path.{subst}
use ramix.Admission.Limit.{Steps-IsWithin, no_connections-IsWithin}

-- A state of that limit, with a gate that is open.
abbrev standing :
    (limit connections begun counted : ℕ) → TcpPoint → (last_id setups : ℕ) → Admission
standing limit connections begun counted at last_id setups = record {
  limit = limit;
  connections = connections;
  last_id = last_id;
  accepting_setups = true;
  setups = setups;
  tcp_at = at;
  upgrades_begun = begun;
  upgrades_counted = counted;
}

data IsReached (handlers limit connections begun counted : ℕ) (at : TcpPoint) : Type 0 where
  reached :
      (last_id setups : ℕ)
      → Steps handlers
          (no_connections limit)
          (standing limit connections begun counted at last_id setups)
      → IsReached handlers limit connections begun counted at

then_to :
    {handlers : ℕ} {a b c d : Admission}
    → Steps handlers a b
    → Step handlers b c
    → c ≡ d
    → Steps handlers a d
then_to {handlers} {a} steps step e = subst (Steps handlers a) e (more steps step)

full_lem : {limit count : ℕ} → count < limit → leb limit count ≡ false
full_lem room = ground arith

one_less : (n : ℕ) → suc n - 1 ≡ n
one_less n = omega arith

tcp_count-IsReached :
    {handlers limit connections begun counted : ℕ}
    → connections < limit
    → IsReached handlers limit connections begun counted at_accept
    → IsReached handlers limit connections begun counted at_gate
unfolding tcp_count
tcp_count-IsReached room (reached id setups steps) =
    reached id setups (then_to steps (step_tcp_count _ refl) (if_false _ _ (full_lem room)))

tcp_begin-IsReached :
    {handlers limit connections begun counted : ℕ}
    → IsReached handlers limit connections begun counted at_gate
    → IsReached handlers limit connections begun counted at_open
unfolding tcp_begin
tcp_begin-IsReached (reached id setups steps) =
    reached id (suc setups) (more steps (step_tcp_begin _ refl))

tcp_open-IsReached :
    {handlers limit connections begun counted : ℕ}
    → IsReached handlers limit connections begun counted at_open
    → IsReached handlers limit (suc connections) begun counted at_accept
unfolding tcp_open
tcp_open-IsReached (reached id setups steps) = reached _ _ (more steps (step_tcp_open _ true refl))

upgrade_begin-IsReached :
    {handlers limit connections begun counted : ℕ} {at : TcpPoint}
    → begun + counted < handlers
    → IsReached handlers limit connections begun counted at
    → IsReached handlers limit connections (suc begun) counted at
unfolding upgrade_begin
upgrade_begin-IsReached room (reached id setups steps) =
    reached id (suc setups) (more steps (step_begin _ room))

upgrade_count-IsReached :
    {handlers limit connections begun counted : ℕ} {at : TcpPoint}
    → connections < limit
    → IsReached handlers limit connections (suc begun) counted at
    → IsReached handlers limit connections begun (suc counted) at
unfolding upgrade_count
upgrade_count-IsReached {limit = limit} {connections} {begun} {counted} {at} room
      (reached id setups steps) =
    reached id setups (
      then_to steps (step_count _ (omega arith)) (
        if_false _ _ (full_lem room)
        ∙ ap (λ n. standing limit connections n (suc counted) at id setups) (one_less begun)))

upgrade_open-IsReached :
    {handlers limit connections begun counted : ℕ} {at : TcpPoint}
    → IsReached handlers limit connections begun (suc counted) at
    → IsReached handlers limit (suc connections) begun counted at
unfolding upgrade_open
upgrade_open-IsReached {limit = limit} {connections} {begun} {counted} {at}
      (reached id setups steps) =
    reached (next_connection_id id) (setups - 1) (
      then_to steps (step_open _ opened (omega arith)) (
        ap (λ n. standing limit (suc connections) begun n at (next_connection_id id) (setups - 1))
          (one_less counted)))

-- One connection after the other over TCP.
filled : (handlers limit n : ℕ) → n ≤ limit → IsReached handlers limit n 0 0 at_accept
filled handlers limit zero h = reached 0 0 (done _)
filled handlers limit (suc n) h = tcp_open-IsReached (
    tcp_begin-IsReached (tcp_count-IsReached (omega arith) (filled handlers limit n (omega arith))))

-- Every upgrade handler is behind the gate.
all_begun :
    {handlers limit connections : ℕ} (n : ℕ)
    → n ≤ handlers
    → IsReached handlers limit connections 0 0 at_accept
    → IsReached handlers limit connections n 0 at_accept
all_begun zero h r = r
all_begun (suc n) h r = upgrade_begin-IsReached (omega arith) (all_begun n (omega arith) r)

-- They all see a count below the limit.
all_counted :
    {handlers limit connections : ℕ} (n counted : ℕ)
    → connections < limit
    → IsReached handlers limit connections n counted at_accept
    → IsReached handlers limit connections 0 (counted + n) at_accept
all_counted {handlers} {limit} {connections} zero counted room r =
    subst (λ k. IsReached handlers limit connections 0 k at_accept) (omega arith) r
all_counted {handlers} {limit} {connections} (suc n) counted room r =
    subst (λ k. IsReached handlers limit connections 0 k at_accept) (omega arith)
      (all_counted n (suc counted) room (upgrade_count-IsReached room r))

all_opened :
    {handlers limit : ℕ} (n connections : ℕ)
    → IsReached handlers limit connections 0 n at_accept
    → IsReached handlers limit (connections + n) 0 0 at_accept
all_opened {handlers} {limit} zero connections r =
    subst (λ k. IsReached handlers limit k 0 0 at_accept) (omega arith) r
all_opened {handlers} {limit} (suc n) connections r =
    subst (λ k. IsReached handlers limit k 0 0 at_accept) (omega arith)
      (all_opened n (suc connections) (upgrade_open-IsReached r))

excess :
    (limit handlers : ℕ) → 0 < limit → IsReached handlers limit (limit + handlers) 0 0 at_accept
excess zero handlers h = absurd (omega arith)
excess (suc limit) handlers h =
    let near = all_begun handlers (omega arith) (filled handlers (suc limit) limit (omega arith)) in
    let all = all_counted handlers 0 (omega arith) near in
    let last = tcp_open-IsReached (tcp_begin-IsReached (tcp_count-IsReached (omega arith) all)) in
    all_opened handlers (suc limit)
      (subst (λ k. IsReached handlers (suc limit) (suc limit) 0 k at_accept) (omega arith) last)

-- For a limit above zero, and where at most `handlers` upgrade handlers run at a time: in every
-- interleaving of the accept loop, the handlers, the connections that leave and the shutdown, the
-- manager holds at most the limit and one connection for every handler; and an interleaving
-- reaches exactly that many. So the limit holds exactly where there is no upgrade handler.
pub connections-bound :
    (limit handlers : ℕ)
    → 0 < limit
    → ((a : Admission) → Steps handlers (no_connections limit) a → a.connections ≤ limit + handlers)
      × ((a : Admission) × (Steps handlers (no_connections limit) a
            × (a.connections ≡ limit + handlers)))
connections-bound limit handlers h = (
  (λ a steps.
      let within = (Steps-IsWithin steps (no_connections-IsWithin limit handlers)).within in
      omega arith),
  elim (excess limit handlers h) [ reached id setups steps ↦ (_, (steps, omega arith)) ],
)
