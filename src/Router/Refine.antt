-- ===== src/Router/Refine.antt =====
-- router.go: groups and routes behave as if each held its handlers by value.
use ramix.Router.{
  Router, RouterCall, add_group, new_group, group, use_handlers, register_route, check_mutation,
  make_group, sub_group, add_handlers, add_route, freeze, commit, call, after_calls, new_router,
}
use ramix.Router.Values.{Table, add_entry, value_call, is_allowed, after_value_calls, new_table}
use ramix.Router.Owned.{Matches, add_group-Matches}
use ramix.Slices.{Memory, Slice, contents, copy_slice, append_slice, nil_slice}
use ramix.Slices.Append.{
  Copied, copy_slice-Copied, append_slice-Appended, Copied-Appended, nil_slice-Copied,
}
use ramix.Prelude.{
  ℕ, List, some, ◌≡◌, ◌<◌, ◌++◌, arith, false, suc, Result, if◌then◌else◌, [], none, ◌∷◌, ok, err,
  panic, stuck, refl,
}
use ramix.Server.State.{ServerState}
use ramix.Router.Routes.{commit-each, AreAllocated}
use ramix.Router.Changes.{set_route-Matches, set_group-Matches}

-- The groups that a call names were made before it, where `n` groups are there.
abbrev pub KnownFrom : {H : Type 0} → ℕ → List (RouterCall H) → Type 0
KnownFrom n [] = Unit
KnownFrom n (make_group ∷ rest) = KnownFrom (suc n) rest
KnownFrom n (sub_group g ∷ rest) = (g < n) × KnownFrom (suc n) rest
KnownFrom n (add_handlers state g added ∷ rest) = (g < n) × KnownFrom n rest
KnownFrom n (add_route state g event handler ∷ rest) = (g < n) × KnownFrom n rest

module _ {H : Type 0} where
  -- Groups and frozen routes show what the table holds, and each route's slice has its array.
  pub record HasValues (r : Router H) (v : Table H) : Type 0 where
    pub groups : (g : ℕ) → g < r.size → contents r.memory (r.groups g).handlers ≡ v.handlers g
    pub routes : (event : ℕ) → freeze r event ≡ v.routes event
    pub allocated : AreAllocated r

  commit-Matches :
      (test : Result (Unit {0})) (changed kept : Router H) (new old : Table H)
      → Matches changed new
      → Matches kept old
      → Matches (commit test changed kept).1 (if is_allowed test then new else old)
  commit-Matches (ok _) changed kept new old yes_changed yes_kept = yes_changed
  commit-Matches (err e) changed kept new old yes_changed yes_kept = yes_kept
  commit-Matches panic changed kept new old yes_changed yes_kept = yes_kept
  commit-Matches stuck changed kept new old yes_changed yes_kept = yes_kept

  make_group-Matches :
      (r : Router H) (v : Table H) → Matches r v → Matches (new_group r) (add_entry false [] v)
  unfolding new_group
  make_group-Matches r v h =
      add_group-Matches r v h false none [] (nil_slice r.memory).0 (nil_slice r.memory).1
        (nil_slice-Copied r.memory)

  group-Matches :
      (room : ℕ → ℕ) (g : ℕ) (r : Router H) (v : Table H)
      → g < r.size
      → Matches r v
      → Matches (group room g r) (add_entry (v.served g) (v.handlers g) v)
  unfolding group
  group-Matches room g r v lt h =
      let old = (r.groups g).handlers in
      rw (← h.same_served g lt, ← h.same_handlers g lt)
        (add_group-Matches r v h (r.groups g).has_server (some g) (contents r.memory old)
          (copy_slice room old r.memory).0 (copy_slice room old r.memory).1
          (copy_slice-Copied room old r.memory))

  use_handlers-Matches :
      (room : ℕ → ℕ) (state : ServerState) (g : ℕ) (added : List H) (r : Router H) (v : Table H)
      → g < r.size
      → Matches r v
      → Matches (use_handlers room state g added r).1 (value_call (add_handlers state g added) v)
  unfolding use_handlers value_call
  use_handlers-Matches room state g added r v lt h = rw (← h.same_served g lt) (
      commit-Matches (check_mutation state (r.groups g).has_server) _ r _ v
        (set_group-Matches r v h g added (append_slice room (r.groups g).handlers added r.memory).0
          (append_slice room (r.groups g).handlers added r.memory).1 lt
          (append_slice-Appended room (r.groups g).handlers added r.memory (h.group_fits g lt)))
        h)

  -- The copy of a group's slice, and the handler.
  chain_of :
      (room : ℕ → ℕ) (s : Slice) (handler : H) (m : Memory H)
      → let c = copy_slice room s m in
        let a = append_slice room c.0 (handler ∷ []) c.1 in
        Copied (contents m s ++ (handler ∷ [])) m a.0 a.1
  chain_of room s handler m =
      let c = copy_slice room s m in
      let copied = copy_slice-Copied room s m in
      Copied-Appended (contents m s) (handler ∷ []) m c.1 _ c.0 _ copied
        (append_slice-Appended room c.0 (handler ∷ []) c.1 copied.fits)

  register_route-Matches :
      (room : ℕ → ℕ) (state : ServerState) (g event : ℕ) (handler : H) (r : Router H) (v : Table H)
      → g < r.size
      → Matches r v
      → Matches
          (register_route room state g event handler r).1
          (value_call (add_route state g event handler) v)
  unfolding register_route value_call
  register_route-Matches room state g event handler r v lt h =
      let c = copy_slice room (r.groups g).handlers r.memory in
      let a = append_slice room c.0 (handler ∷ []) c.1 in
      rw (← h.same_served g lt, ← h.same_handlers g lt)
        (commit-Matches (check_mutation state (r.groups g).has_server) _ r _ v
          (set_route-Matches r v h event (contents r.memory (r.groups g).handlers ++ (handler ∷ []))
            a.0 a.1 (chain_of room (r.groups g).handlers handler r.memory))
          h)

  -- A call that makes no group leaves the number of groups.
  use_handlers-Known :
      (room : ℕ → ℕ) (state : ServerState) (g : ℕ) (added : List H) (rest : List (RouterCall H))
      (r : Router H)
      → KnownFrom r.size rest
      → KnownFrom (use_handlers room state g added r).1.size rest
  unfolding use_handlers
  use_handlers-Known room state g added rest r known =
      commit-each (λ s. KnownFrom s.size rest) (check_mutation state _) _ r known known

  register_route-Known :
      (room : ℕ → ℕ) (state : ServerState) (g event : ℕ) (handler : H) (rest : List (RouterCall H))
      (r : Router H)
      → KnownFrom r.size rest
      → KnownFrom (register_route room state g event handler r).1.size rest
  unfolding register_route
  register_route-Known room state g event handler rest r known =
      commit-each (λ s. KnownFrom s.size rest) (check_mutation state _) _ r known known

  call-Matches :
      (room : ℕ → ℕ) (c : RouterCall H) (rest : List (RouterCall H)) (r : Router H) (v : Table H)
      → KnownFrom r.size (c ∷ rest)
      → Matches r v
      → Matches (call room c r) (value_call c v) × KnownFrom (call room c r).size rest
  unfolding call value_call new_group group add_group
  call-Matches room make_group rest r v known h = (make_group-Matches r v h, known)
  call-Matches room (sub_group g) rest r v (lt, known) h = (group-Matches room g r v lt h, known)
  call-Matches room (add_handlers state g added) rest r v (lt, known) h = (
    use_handlers-Matches room state g added r v lt h,
    use_handlers-Known room state g added rest r known,
  )
  call-Matches room (add_route state g event handler) rest r v (lt, known) h = (
    register_route-Matches room state g event handler r v lt h,
    register_route-Known room state g event handler rest r known,
  )

  after_calls-Matches :
      (room : ℕ → ℕ) (calls : List (RouterCall H)) (r : Router H) (v : Table H)
      → KnownFrom r.size calls
      → Matches r v
      → Matches (after_calls room calls r) (after_value_calls calls v)
  unfolding after_calls after_value_calls
  after_calls-Matches room [] r v known h = h
  after_calls-Matches room (c ∷ rest) r v known h =
      let (next, known') = call-Matches room c rest r v known h in
      after_calls-Matches room rest (call room c r) (value_call c v) known' next

  new_router-Matches : Matches {H = H} new_router new_table
  unfolding new_router
  new_router-Matches = record {
    same_size = refl;
    group_fits = λ g lt. (omega arith, omega arith);
    route_fits = λ event. tt;
    groups_apart = λ g k ltg ltk ne. absurd (ne (omega arith));
    routes_apart = λ g event lt. tt;
    same_served = λ g lt. refl;
    same_handlers = λ g lt. refl;
    same_routes = λ event. refl;
  }

  -- Whatever calls are made from a new router on, through groups that were made, and whatever room
  -- the runtime leaves in the arrays of its slices: the handlers of each group, and the frozen
  -- routes, are those of a table which holds them by value, where a new group starts with its
  -- parent's handlers, a route with its group's, and a call changes no other entry; and each
  -- route's slice has its array.
  pub after_calls-HasValues :
      (room : ℕ → ℕ) (calls : List (RouterCall H))
      → KnownFrom 1 calls
      → HasValues (after_calls room calls new_router) (after_value_calls calls new_table)
  unfolding freeze new_router
  after_calls-HasValues room calls known =
      let h = after_calls-Matches room calls new_router new_table known new_router-Matches in
      record { groups = h.same_handlers; routes = h.same_routes; allocated = h.route_fits }
