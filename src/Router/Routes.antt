-- ===== src/Router/Routes.antt =====
-- router.go: what the routes hold after any calls.
use ramix.Server.State.{
  ServerState, state_new, state_starting, state_running, state_stopping, state_stopped,
  mutation_error,
}
use ramix.Router.{
  add_group, after_calls, Router, RouterCall, make_group, sub_group, add_handlers, add_route, call,
  group, commit, RouteGroup, use_handlers, register_route, check_mutation, freeze,
}
use mathlib.Core.Path.{fun_ext, subst}
use ramix.Router.Owned.{RouteFits, kept-route, kept-RouteFits, KeepsRoute, old-KeepsRoute}
use ramix.Slices.{Slice, contents, copy_slice}
use ramix.Slices.Append.{Copied, copy_slice-Copied}
use ramix.Prelude.{
  List, ℕ, ◌≢◌, ◌≡◌, ◌∷◌, ◌∙◌, ok, [], err, refl, if_false, if_true, sym, true, panic, Bool-cases,
  ◌==◌, inl, inr, Error, Result, ap, stuck,
}

late-check :
    (state : ServerState) → state ≢ state_new → (e : Error) × (check_mutation state true ≡ err e)
unfolding check_mutation mutation_error
late-check state_new late = absurd (late refl)
late-check state_starting late = (_, refl)
late-check state_running late = (_, refl)
late-check state_stopping late = (_, refl)
late-check state_stopped late = (_, refl)

module _ {H : Type 0} where
  -- The call comes when the server has left its first state, and through a group of the server.
  abbrev pub IsLate : RouterCall H → Type 0
  IsLate make_group = ⊥
  IsLate (sub_group g) = Unit
  IsLate (add_handlers state g added) = state ≢ state_new
  IsLate (add_route state g event handler) = state ≢ state_new

  abbrev pub Every : (RouterCall H → Type 0) → List (RouterCall H) → Type 0
  Every P [] = Unit
  Every P (c ∷ rest) = P c × Every P rest

  pub commit-each :
      (P : Router H → Type 0) (test : Result (Unit {0})) (changed kept : Router H)
      → P changed
      → P kept
      → P (commit test changed kept).1
  commit-each P (ok _) changed kept yes_changed yes_kept = yes_changed
  commit-each P (err e) changed kept yes_changed yes_kept = yes_kept
  commit-each P panic changed kept yes_changed yes_kept = yes_kept
  commit-each P stuck changed kept yes_changed yes_kept = yes_kept

  -- Every group belongs to the server.
  abbrev pub OfServer : Router H → Type 0
  OfServer r = (g : ℕ) → (r.groups g).has_server ≡ true

  commit-err :
      {test : Result (Unit {0})} {e : Error} (changed kept : Router H)
      → test ≡ err e
      → (commit test changed kept).1 ≡ kept
  commit-err changed kept refused = ap (λ test. (commit test changed kept).1) refused

  -- The routes' slices have their arrays.
  abbrev pub AreAllocated : Router H → Type 0
  AreAllocated r = (event : ℕ) → RouteFits r.memory (r.routes event)

  abbrev Unchanged : Router H → Router H → Type 0
  Unchanged s r = (freeze s ≡ freeze r) × OfServer s × AreAllocated s

  unchanged : {s r : Router H} → s ≡ r → OfServer r → AreAllocated r → Unchanged s r
  unchanged {r = r} same mine fit = subst (λ s. Unchanged s r) (sym same) (refl, mine, fit)

  late-group :
      (room : ℕ → ℕ) (g : ℕ) (r : Router H)
      → OfServer r
      → AreAllocated r
      → Unchanged (group room g r) r
  unfolding group add_group freeze
  late-group room g r mine fit = (
    fun_ext λ event.
        kept-route r.memory (copy_slice room old r.memory).1 (r.routes event) (keeps event),
    λ j. elim (Bool-cases (r.size == j)) [
      | inl e ↦ ap (λ (x : RouteGroup). x.has_server) (if_true _ _ e) ∙ mine g
      | inr e ↦ ap (λ (x : RouteGroup). x.has_server) (if_false _ _ e) ∙ mine j
    ],
    λ event.
        kept-RouteFits r.memory (copy_slice room old r.memory).1 (r.routes event) copied.grows
          (keeps event) (fit event),
  )
    where
      old : Slice
      old = (r.groups g).handlers

      copied :
          Copied
            (contents r.memory old)
            r.memory
            (copy_slice room old r.memory).0
            (copy_slice room old r.memory).1
      copied = copy_slice-Copied room old r.memory

      keeps : (event : ℕ) → KeepsRoute r.memory (copy_slice room old r.memory).1 (r.routes event)
      keeps event =
          old-KeepsRoute r.memory (copy_slice room old r.memory).1 (r.routes event) (fit event)
            copied.frame

  -- A late call is refused, or makes a group, and changes no route.
  late-call :
      (room : ℕ → ℕ) (c : RouterCall H) (r : Router H)
      → IsLate c
      → OfServer r
      → AreAllocated r
      → Unchanged (call room c r) r
  unfolding call use_handlers register_route
  late-call room make_group r late mine fit = absurd late
  late-call room (sub_group g) r late mine fit = late-group room g r mine fit
  late-call room (add_handlers state g added) r late mine fit =
      let (e, refused) = late-check state late in
      unchanged (commit-err _ r (ap (check_mutation state) (mine g) ∙ refused)) mine fit
  late-call room (add_route state g event handler) r late mine fit =
      let (e, refused) = late-check state late in
      unchanged (commit-err _ r (ap (check_mutation state) (mine g) ∙ refused)) mine fit

  -- From the moment the server leaves its first state, no call through the server's groups changes
  -- a route: the frozen routes stay what they are, where each route's slice has its array.
  pub late_calls-freeze :
      (room : ℕ → ℕ) (calls : List (RouterCall H)) (r : Router H)
      → Every IsLate calls
      → OfServer r
      → AreAllocated r
      → freeze (after_calls room calls r) ≡ freeze r
  unfolding after_calls
  late_calls-freeze room [] r late mine fit = refl
  late_calls-freeze room (c ∷ rest) r (here, late) mine fit =
      let (same, still, fit') = late-call room c r here mine fit in
      late_calls-freeze room rest (call room c r) late still fit' ∙ same
