-- ===== src/Router.antt =====
-- router.go: groups of handlers and the routes that they register. A group is a number: the store
-- holds its slice of handlers, its parent and whether it belongs to a server. The slices of the
-- groups and of the routes stand in one memory, where they could share an array. Only what a
-- server's state allows changes the routes (server_state.go). The handlers are opaque.
pub mod Routes
pub mod Values
pub mod Owned
pub mod Changes
pub mod Refine
mod Tests
use ramix.Server.State.{ServerState, mutation_error}
use ramix.Prelude.{
  ℕ, List, Bool, Option, Result, true, suc, if◌then◌else◌, ok, none, [], false, some, ◌++◌, ◌∷◌,
  err, panic, stuck, update,
}
use ramix.Slices.{Slice, nil_slice, copy_slice, append_slice, Memory, contents}

pub record RouteGroup : Type 0 where
  pub has_server : Bool
  pub parent : Option ℕ
  pub handlers : Slice

-- `groups` is read below `size`, the number of groups made so far.
pub record Router (H : Type 0) : Type 0 where
  pub size : ℕ
  pub groups : ℕ → RouteGroup
  pub routes : ℕ → Option Slice
  pub memory : Memory H

-- The test at the head of Use and of RegisterRoute.
unfoldable pub check_mutation : ServerState → Bool → Result (Unit {0})
check_mutation state has_server = if has_server then mutation_error state else ok tt

pub data RouterCall (H : Type 0) : Type 0 where
  make_group : RouterCall H
  sub_group : ℕ → RouterCall H
  add_handlers : ServerState → ℕ → List H → RouterCall H
  add_route : ServerState → ℕ → ℕ → H → RouterCall H

module _ {H : Type 0} where
  -- NewServer makes the router and its first group, number 0.
  unfoldable pub new_router : Router H
  unfolding nil_slice
  new_router =
      let (handlers, memory) = nil_slice (record { size = 0; arrays = λ _. [] }) in
      record {
        size = 1;
        groups = λ _. record { has_server = true; parent = none; handlers = handlers };
        routes = λ _. none;
        memory = memory;
      }

  unfoldable pub add_group : Bool → Option ℕ → Slice → Memory H → Router H → Router H
  add_group has_server parent handlers memory r = record r {
    size = suc r.size;
    groups =
        update r.groups r.size
          (record { has_server = has_server; parent = parent; handlers = handlers });
    memory = memory;
  }

  -- `newGroup` without a server.
  unfoldable pub new_group : Router H → Router H
  unfolding add_group nil_slice
  new_group r =
      let (handlers, memory) = nil_slice r.memory in add_group false none handlers memory r

  -- `room` is the runtime's choice of the room in each array that `append` makes.
  unfoldable pub group : (ℕ → ℕ) → ℕ → Router H → Router H
  unfolding add_group copy_slice
  group room g r =
      let (handlers, memory) = copy_slice room (r.groups g).handlers r.memory in
      add_group (r.groups g).has_server (some g) handlers memory r

  -- The change is made where the test allows it.
  abbrev pub commit : Result (Unit {0}) → Router H → Router H → Result (Unit {0}) × Router H
  commit (ok _) changed kept = (ok tt, changed)
  commit (err e) changed kept = (err e, kept)
  commit panic changed kept = (panic, kept)
  commit stuck changed kept = (stuck, kept)

  unfoldable pub use_handlers :
      (ℕ → ℕ) → ServerState → ℕ → List H → Router H → Result (Unit {0}) × Router H
  unfolding append_slice
  use_handlers room state g added r =
      let old = r.groups g in
      let (handlers, memory) = append_slice room old.handlers added r.memory in
      commit (check_mutation state old.has_server)
        (record r {
          groups = update r.groups g (record old { handlers = handlers });
          memory = memory;
        })
        r

  unfoldable pub register_route :
      (ℕ → ℕ) → ServerState → ℕ → ℕ → H → Router H → Result (Unit {0}) × Router H
  unfolding copy_slice append_slice
  register_route room state g event handler r =
      let old = r.groups g in
      let (copied, copies) = copy_slice room old.handlers r.memory in
      let (handlers, memory) = append_slice room copied (handler ∷ []) copies in
      commit (check_mutation state old.has_server)
        (record r { routes = update r.routes event (some handlers); memory = memory }) r

  abbrev pub route_contents : Memory H → Option Slice → Option (List H)
  route_contents m none = none
  route_contents m (some s) = some (contents m s)

  -- What the frozen map gives for an event: the copy of its slice, in an array that nothing writes
  -- to afterwards, which is what the slice shows now.
  unfoldable pub freeze : Router H → ℕ → Option (List H)
  freeze r event = route_contents r.memory (r.routes event)

  unfoldable pub call : (ℕ → ℕ) → RouterCall H → Router H → Router H
  call room make_group r = new_group r
  call room (sub_group g) r = group room g r
  call room (add_handlers state g added) r = (use_handlers room state g added r).1
  call room (add_route state g event handler) r = (register_route room state g event handler r).1

  unfoldable pub after_calls : (ℕ → ℕ) → List (RouterCall H) → Router H → Router H
  after_calls room [] r = r
  after_calls room (c ∷ rest) r = after_calls room rest (call room c r)
