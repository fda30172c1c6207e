-- ===== src/Router/Tests.antt =====
-- Routers on concrete handlers, which are numbers here.
use ramix.Server.State.{state_new, state_running, state_starting, mutation_error}
use ramix.Router.{
  add_group, after_calls, Router, add_handlers, add_route, sub_group, new_router, use_handlers,
  register_route, freeze, group, check_mutation, RouteGroup, call, RouterCall,
}
use ramix.Router.Routes.{late_calls-freeze}
use ramix.Router.Refine.{after_calls-HasValues, HasValues}
use ramix.Router.Values.{after_value_calls, new_table}
use ramix.Prelude.{ℕ, ◌∷◌, [], ◌≡◌, some, arith, refl, zero, suc, true, ap, if_false, ==-ne, List}
use ramix.Slices.{append_slice, copy_slice, nil_slice}

-- Arrays with room for one more, so that an append may write into one.
abbrev spare : ℕ → ℕ
spare _ = 1

-- The server's group has the handlers 10 and 11.
abbrev two_handlers : Router ℕ
two_handlers = (use_handlers spare state_new 0 (10 ∷ 11 ∷ []) new_router).1

-- A route and a group are made between two calls of Use that fill the same array.
abbrev busy : List (RouterCall ℕ)
busy =
    add_handlers state_new 0 (10 ∷ 11 ∷ [])
    ∷ add_route state_new 0 7 13
    ∷ sub_group 0
    ∷ add_handlers state_new 1 (14 ∷ [])
    ∷ add_handlers state_new 0 (12 ∷ [])
    ∷ []

busy_route : freeze (after_calls spare busy new_router) 7 ≡ some (10 ∷ 11 ∷ 13 ∷ [])
unfolding freeze after_calls call use_handlers register_route group add_group new_router
    check_mutation mutation_error append_slice copy_slice nil_slice
busy_route = refl

after_calls-HasValues_example :
    HasValues (after_calls spare busy new_router) (after_value_calls busy new_table)
after_calls-HasValues_example =
    after_calls-HasValues spare busy
      (omega arith, (omega arith, (omega arith, (omega arith, (omega arith, tt)))))

late_calls-freeze_example :
    freeze (
      after_calls spare
        (sub_group 0
          ∷ add_handlers state_running 0 (12 ∷ [])
          ∷ add_route state_starting 1 7 20
          ∷ [])
        two_handlers)
    ≡ freeze two_handlers
unfolding use_handlers new_router check_mutation mutation_error append_slice nil_slice
late_calls-freeze_example =
    late_calls-freeze spare
      (sub_group 0 ∷ add_handlers state_running 0 (12 ∷ []) ∷ add_route state_starting 1 7 20 ∷ [])
      two_handlers (tt, ((λ e. cc), ((λ e. cc), tt))) each (λ event. tt)
  where
    each : (g : ℕ) → (two_handlers.groups g).has_server ≡ true
    each zero = refl
    each (suc g) =
        ap (λ (x : RouteGroup). x.has_server)
          (if_false _ _ (==-ne 0 (suc g) (λ e. absurd (omega arith))))
