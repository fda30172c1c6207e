-- ===== src/Router/Changes.antt =====
-- router.go: a route is set, or a group's slice appended to, and no other slice shows it.
use ramix.Router.{Router}
use ramix.Router.Values.{Table}
use ramix.Router.Owned.{
  Matches, kept-RouteFits, kept-route, old-KeepsRoute, apart-KeepsRoute, new-IsApart, IsApart,
  KeepsRoute,
}
use ramix.Slices.{Memory, Slice}
use ramix.Slices.Append.{Copied, Appended, kept-Fits, kept-contents}
use ramix.Prelude.{
  ℕ, List, some, ◌≡◌, ◌≢◌, ◌<◌, update, Bool-cases, ◌++◌, ap, ◌==◌, inl, inr, ◌∙◌, arith, true,
  false, sym,
}
use mathlib.Core.Path.{subst}

module _ {H : Type 0} (r : Router H) (v : Table H) (h : Matches r v) where
  -- A route gets a slice of its own.
  pub set_route-Matches :
      (event : ℕ) (cells : List H) (s : Slice) (m : Memory H)
      → Copied cells r.memory s m
      → Matches
          (record r { routes = update r.routes event (some s); memory = m })
          (record v { routes = update v.routes event (some cells) })
  set_route-Matches event cells s m c = record {
    same_size = h.same_size;
    group_fits = λ g lt.
        let fit = h.group_fits g lt in
        kept-Fits r.memory m (r.groups g).handlers c.grows (c.frame _ fit.0) fit;
    route_fits = λ other. elim (Bool-cases (event == other)) [
      | inl here ↦ rw here c.fits
      | inr there ↦ rw there (
          kept-RouteFits r.memory m (r.routes other) c.grows
            (old-KeepsRoute r.memory m (r.routes other) (h.route_fits other) c.frame)
            (h.route_fits other))
    ];
    groups_apart = h.groups_apart;
    routes_apart = λ g other lt. elim (Bool-cases (event == other)) [
      | inl here ↦ rw here (λ e. absurd (omega (arith, c.fresh, (h.group_fits g lt).0, e)))
      | inr there ↦ rw there (h.routes_apart g other lt)
    ];
    same_served = h.same_served;
    same_handlers = λ g lt.
        let fit = h.group_fits g lt in
        kept-contents r.memory m (r.groups g).handlers (c.frame _ fit.0) ∙ h.same_handlers g lt;
    same_routes = λ other. elim (Bool-cases (event == other)) [
      | inl here ↦ rw here (ap some c.own)
      | inr there ↦ rw there (
          kept-route r.memory m (r.routes other)
            (old-KeepsRoute r.memory m (r.routes other) (h.route_fits other) c.frame)
          ∙ h.same_routes other)
    ];
  }

  -- A group's slice is appended to.
  pub set_group-Matches :
      (g : ℕ) (added : List H) (s : Slice) (m : Memory H)
      → g < r.size
      → Appended (r.groups g).handlers added r.memory s m
      → Matches
          (record r {
            groups = update r.groups g (record (r.groups g) { handlers = s });
            memory = m;
          })
          (record v { handlers = update v.handlers g (v.handlers g ++ added) })
  set_group-Matches g added s m here_lt a = record {
    same_size = h.same_size;
    group_fits = λ k lt. elim (Bool-cases (g == k)) [
      | inl here ↦ rw here a.fits
      | inr there ↦ rw there (
          let fit = h.group_fits k lt in
          kept-Fits r.memory m (r.groups k).handlers a.grows (others k lt there) fit)
    ];
    route_fits = λ event.
        kept-RouteFits r.memory m (r.routes event) a.grows (routes event) (h.route_fits event);
    groups_apart = λ k l ltk ltl ne. elim (Bool-cases (g == k)) [
      | inl here ↦ elim (Bool-cases (g == l)) [
        | inl here' ↦ absurd (ne (ground arith))
        | inr there' ↦ rw (here, there') (apart l ltl there')
      ]
      | inr there ↦ elim (Bool-cases (g == l)) [
        | inl here' ↦ rw (there, here') (λ e. apart k ltk there (sym e))
        | inr there' ↦ rw (there, there') (h.groups_apart k l ltk ltl ne)
      ]
    ];
    routes_apart = λ k event lt. elim (Bool-cases (g == k)) [
      | inl here ↦ rw here (elim a.place [
        | inl same ↦
            subst (λ x. IsApart x (r.routes event)) (sym same) (h.routes_apart g event here_lt)
        | inr new ↦ new-IsApart r.memory (r.routes event) s.array (h.route_fits event) new
      ])
      | inr there ↦ rw there (h.routes_apart k event lt)
    ];
    same_served = λ k lt. elim (Bool-cases (g == k)) [
      | inl here ↦ rw here (ap (λ x. (r.groups x).has_server) (alike k here) ∙ h.same_served k lt)
      | inr there ↦ rw there (h.same_served k lt)
    ];
    same_handlers = λ k lt. elim (Bool-cases (g == k)) [
      | inl here ↦ rw here (a.own ∙ ap (λ l. l ++ added) (h.same_handlers g here_lt))
      | inr there ↦ rw there (
          kept-contents r.memory m (r.groups k).handlers (others k lt there) ∙ h.same_handlers k lt)
    ];
    same_routes =
        λ event. kept-route r.memory m (r.routes event) (routes event) ∙ h.same_routes event;
  }
    where
      alike : (k : ℕ) → (g == k) ≡ true → g ≡ k
      alike k here = ground arith

      unlike : (k : ℕ) → (g == k) ≡ false → k ≢ g
      unlike k there = λ e. absurd (ground arith)

      others :
          (k : ℕ)
          → k < r.size
          → (g == k) ≡ false
          → m.arrays (r.groups k).handlers.array ≡ r.memory.arrays (r.groups k).handlers.array
      others k lt there =
          a.frame _ (h.group_fits k lt).0 (h.groups_apart k g lt here_lt (unlike k there))

      routes : (event : ℕ) → KeepsRoute r.memory m (r.routes event)
      routes event =
          apart-KeepsRoute r.memory m (r.routes event) _ (h.route_fits event)
            (h.routes_apart g event here_lt) a.frame

      apart : (k : ℕ) → k < r.size → (g == k) ≡ false → s.array ≢ (r.groups k).handlers.array
      apart k lt there = elim a.place [
        | inl same ↦ λ e. h.groups_apart k g lt here_lt (unlike k there) (sym e ∙ same)
        | inr new ↦ λ e. absurd (omega (arith, (h.group_fits k lt).0, new, e))
      ]
