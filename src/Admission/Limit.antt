-- ===== src/Admission/Limit.antt =====
-- tcp_server.go, websocket_server.go: how far the count of connections can go.
use ramix.Admission.{
  Admission, TcpPoint, at_accept, at_gate, at_open, no_connections, tcp_count, tcp_begin, tcp_open,
  upgrade_begin, upgrade_count, upgrade_open, leave, Step, step_tcp_count, step_tcp_begin,
  step_tcp_open, step_begin, step_count, step_open, step_leave, Steps, done, more, UpgradeEnd,
  stop_setups, step_stop, not_upgraded, not_made, opened,
}
use ramix.Prelude.{
  ℕ, ◌≡◌, arith, ◌+◌, ◌≤◌, true, refl, false, leb, Bool, ◌<◌, if◌then◌else◌, suc, ap, ◌-◌,
}

-- The accept loop is behind its look at the count.
abbrev counted : TcpPoint → ℕ
counted at_accept = 0
counted at_gate = 1
counted at_open = 1

-- Who was let in, or has looked at the count, is within the limit and the number of goroutines.
pub record IsWithin (limit handlers : ℕ) (a : Admission) : Type 0 where
  pub same_limit : a.limit ≡ limit
  pub few : a.upgrades_begun + a.upgrades_counted ≤ handlers
  pub within : a.connections + counted a.tcp_at + a.upgrades_counted ≤ limit + handlers

pub no_connections-IsWithin : (limit handlers : ℕ) → IsWithin limit handlers (no_connections limit)
no_connections-IsWithin limit handlers = record {
  same_limit = refl;
  few = omega arith;
  within = omega arith;
}

-- A look at the count that lets in.
room_lem : (limit count : ℕ) {bound : ℕ} → limit ≡ bound → leb limit count ≡ false → count < bound
room_lem limit count e h = ground arith

tcp_count-IsWithin :
    {limit handlers : ℕ} (a : Admission) (full : Bool)
    → leb a.limit a.connections ≡ full
    → a.tcp_at ≡ at_accept
    → IsWithin limit handlers a
    → IsWithin limit handlers (if full then a else record a { tcp_at = at_gate })
tcp_count-IsWithin a true efull at w = w
tcp_count-IsWithin a false efull at w =
    let room = room_lem a.limit a.connections w.same_limit efull in
    let few = w.few in record { same_limit = w.same_limit; few = w.few; within = omega arith }

tcp_begin-IsWithin :
    {limit handlers : ℕ} (a : Admission) (accepts : Bool)
    → a.tcp_at ≡ at_gate
    → IsWithin limit handlers a
    → IsWithin limit handlers (
        if accepts
        then record a { tcp_at = at_open; setups = suc a.setups }
        else record a { tcp_at = at_accept })
tcp_begin-IsWithin a true at w =
    let was = ap counted at in
    let within = w.within in record { same_limit = w.same_limit; few = w.few; within = omega arith }
tcp_begin-IsWithin a false at w =
    let was = ap counted at in
    let within = w.within in record { same_limit = w.same_limit; few = w.few; within = omega arith }

tcp_open-IsWithin :
    {limit handlers : ℕ} (a : Admission) (made : Bool)
    → a.tcp_at ≡ at_open
    → IsWithin limit handlers a
    → IsWithin limit handlers (tcp_open made a)
unfolding tcp_open
tcp_open-IsWithin a true at w =
    let was = ap counted at in
    let within = w.within in record { same_limit = w.same_limit; few = w.few; within = omega arith }
tcp_open-IsWithin a false at w =
    let was = ap counted at in
    let within = w.within in record { same_limit = w.same_limit; few = w.few; within = omega arith }

upgrade_begin-IsWithin :
    {limit handlers : ℕ} (a : Admission) (accepts : Bool)
    → a.upgrades_begun + a.upgrades_counted < handlers
    → IsWithin limit handlers a
    → IsWithin limit handlers (
        if accepts
        then record a { upgrades_begun = suc a.upgrades_begun; setups = suc a.setups }
        else a)
upgrade_begin-IsWithin a true room w = record {
  same_limit = w.same_limit;
  few = omega arith;
  within = w.within;
}
upgrade_begin-IsWithin a false room w = w

counted_lem : (at : TcpPoint) → counted at ≤ 1
counted_lem at_accept = omega arith
counted_lem at_gate = omega arith
counted_lem at_open = omega arith

upgrade_count-IsWithin :
    {limit handlers : ℕ} (a : Admission) (full : Bool)
    → leb a.limit a.connections ≡ full
    → 0 < a.upgrades_begun
    → IsWithin limit handlers a
    → IsWithin limit handlers (
        let left = record a { upgrades_begun = a.upgrades_begun - 1 } in
        if full
        then record left { setups = a.setups - 1 }
        else record left { upgrades_counted = suc a.upgrades_counted })
upgrade_count-IsWithin a true efull begun w =
    let few = w.few in record { same_limit = w.same_limit; few = omega arith; within = w.within }
upgrade_count-IsWithin a false efull begun w =
    let room = room_lem a.limit a.connections w.same_limit efull in
    let one = counted_lem a.tcp_at in
    let few = w.few in record { same_limit = w.same_limit; few = omega arith; within = omega arith }

upgrade_open-IsWithin :
    {limit handlers : ℕ} (a : Admission) (end : UpgradeEnd)
    → 0 < a.upgrades_counted
    → IsWithin limit handlers a
    → IsWithin limit handlers (upgrade_open end a)
unfolding upgrade_open
upgrade_open-IsWithin a not_upgraded some w =
    let few = w.few in
    let within = w.within in
    record { same_limit = w.same_limit; few = omega arith; within = omega arith }
upgrade_open-IsWithin a not_made some w =
    let few = w.few in
    let within = w.within in
    record { same_limit = w.same_limit; few = omega arith; within = omega arith }
upgrade_open-IsWithin a opened some w =
    let few = w.few in
    let within = w.within in
    record { same_limit = w.same_limit; few = omega arith; within = omega arith }

Step-IsWithin :
    {limit handlers : ℕ} {a b : Admission}
    → Step handlers a b
    → IsWithin limit handlers a
    → IsWithin limit handlers b
unfolding tcp_count tcp_begin upgrade_begin upgrade_count leave stop_setups
Step-IsWithin (step_tcp_count a at) w = tcp_count-IsWithin a _ refl at w
Step-IsWithin (step_tcp_begin a at) w = tcp_begin-IsWithin a a.accepting_setups at w
Step-IsWithin (step_tcp_open a made at) w = tcp_open-IsWithin a made at w
Step-IsWithin (step_begin a room) w = upgrade_begin-IsWithin a a.accepting_setups room w
Step-IsWithin (step_count a begun) w = upgrade_count-IsWithin a _ refl begun w
Step-IsWithin (step_open a end some) w = upgrade_open-IsWithin a end some w
Step-IsWithin (step_stop a) w = record { same_limit = w.same_limit; few = w.few; within = w.within }
Step-IsWithin (step_leave a) w =
    let within = w.within in record { same_limit = w.same_limit; few = w.few; within = omega arith }

pub Steps-IsWithin :
    {limit handlers : ℕ} {a b : Admission}
    → Steps handlers a b
    → IsWithin limit handlers a
    → IsWithin limit handlers b
Steps-IsWithin (done a) w = w
Steps-IsWithin (more steps step) w = Step-IsWithin step (Steps-IsWithin steps w)
