-- ===== src/Router/Values.antt =====
-- What router.go promises: groups and routes that hold their handlers by value, so that nothing is
-- shared.
use ramix.Router.{RouterCall, make_group, sub_group, add_handlers, add_route, check_mutation}
use ramix.Prelude.{
  ℕ, List, Option, Bool, Result, ok, none, [], false, some, ◌++◌, ◌∷◌, update, suc, true,
  if◌then◌else◌,
}

pub record Table (H : Type 0) : Type 0 where
  pub size : ℕ
  pub served : ℕ → Bool
  pub handlers : ℕ → List H
  pub routes : ℕ → Option (List H)

abbrev pub is_allowed : Result (Unit {0}) → Bool
is_allowed (ok _) = true
is_allowed _ = false

module _ {H : Type 0} where
  abbrev pub new_table : Table H
  new_table = record { size = 1; served = λ _. true; handlers = λ _. []; routes = λ _. none }

  abbrev pub add_entry : Bool → List H → Table H → Table H
  add_entry served handlers v = record v {
    size = suc v.size;
    served = update v.served v.size served;
    handlers = update v.handlers v.size handlers;
  }

  unfoldable pub value_call : RouterCall H → Table H → Table H
  value_call make_group v = add_entry false [] v
  value_call (sub_group g) v = add_entry (v.served g) (v.handlers g) v
  value_call (add_handlers state g added) v =
      if is_allowed (check_mutation state (v.served g))
      then record v { handlers = update v.handlers g (v.handlers g ++ added) }
      else v
  value_call (add_route state g event handler) v =
      if is_allowed (check_mutation state (v.served g))
      then record v { routes = update v.routes event (some (v.handlers g ++ (handler ∷ []))) }
      else v

  unfoldable pub after_value_calls : List (RouterCall H) → Table H → Table H
  after_value_calls [] v = v
  after_value_calls (c ∷ rest) v = after_value_calls rest (value_call c v)
