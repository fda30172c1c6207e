-- ===== src/Router/Owned.antt =====
-- router.go: no group shares its array with another group or with a route, and so the handlers are
-- those of a table of values.
use ramix.Router.{Router, add_group, route_contents}
use ramix.Router.Values.{Table, add_entry}
use ramix.Slices.{Memory, Slice, contents}
use ramix.Slices.Append.{Fits, Copied, kept-Fits, kept-contents}
use ramix.Prelude.{
  ℕ, List, Option, some, none, ◌≡◌, ◌≢◌, ◌<◌, Bool-cases, ◌≤◌, refl, ap, Bool, suc, ◌==◌, false,
  arith, inl, inr, ◌∙◌,
}

abbrev pub IsApart : ℕ → Option Slice → Type 0
IsApart array none = Unit
IsApart array (some s) = s.array ≢ array

module _ {H : Type 0} where
  abbrev pub RouteFits : Memory H → Option Slice → Type 0
  RouteFits m none = Unit
  RouteFits m (some s) = Fits m s

  pub record Matches (r : Router H) (v : Table H) : Type 0 where
    pub same_size : r.size ≡ v.size
    pub group_fits : (g : ℕ) → g < r.size → Fits r.memory (r.groups g).handlers
    pub route_fits : (event : ℕ) → RouteFits r.memory (r.routes event)
    pub groups_apart :
        (g h : ℕ)
        → g < r.size
        → h < r.size
        → g ≢ h
        → (r.groups g).handlers.array ≢ (r.groups h).handlers.array
    pub routes_apart :
        (g event : ℕ) → g < r.size → IsApart (r.groups g).handlers.array (r.routes event)
    pub same_served : (g : ℕ) → g < r.size → (r.groups g).has_server ≡ v.served g
    pub same_handlers :
        (g : ℕ) → g < r.size → contents r.memory (r.groups g).handlers ≡ v.handlers g
    pub same_routes : (event : ℕ) → route_contents r.memory (r.routes event) ≡ v.routes event

  -- The other memory has the same cells for a route's slice.
  abbrev pub KeepsRoute : Memory H → Memory H → Option Slice → Type 0
  KeepsRoute m n none = Unit
  KeepsRoute m n (some s) = n.arrays s.array ≡ m.arrays s.array

  pub kept-RouteFits :
      (m n : Memory H) (o : Option Slice)
      → m.size ≤ n.size
      → KeepsRoute m n o
      → RouteFits m o
      → RouteFits n o
  kept-RouteFits m n none grows same fit = tt
  kept-RouteFits m n (some s) grows same fit = kept-Fits m n s grows same fit

  pub kept-route :
      (m n : Memory H) (o : Option Slice)
      → KeepsRoute m n o
      → route_contents n o ≡ route_contents m o
  kept-route m n none same = refl
  kept-route m n (some s) same = ap some (kept-contents m n s same)

  -- A change that leaves the old arrays alone, or those that are not a group's, keeps a route.
  pub old-KeepsRoute :
      (m n : Memory H) (o : Option Slice)
      → RouteFits m o
      → ((x : ℕ) → x < m.size → n.arrays x ≡ m.arrays x)
      → KeepsRoute m n o
  old-KeepsRoute m n none fit frame = tt
  old-KeepsRoute m n (some t) fit frame = frame t.array fit.0

  pub apart-KeepsRoute :
      (m n : Memory H) (o : Option Slice) (array : ℕ)
      → RouteFits m o
      → IsApart array o
      → ((x : ℕ) → x < m.size → x ≢ array → n.arrays x ≡ m.arrays x)
      → KeepsRoute m n o
  apart-KeepsRoute m n none array fit apart frame = tt
  apart-KeepsRoute m n (some t) array fit apart frame = frame t.array fit.0 apart

  pub new-IsApart :
      (m : Memory H) (o : Option Slice) (array : ℕ)
      → RouteFits m o
      → m.size ≤ array
      → IsApart array o
  new-IsApart m none array fit le = tt
  new-IsApart m (some t) array (home, len) le = λ e. absurd (omega arith)

  module _ (r : Router H) (v : Table H) (h : Matches r v) where
    -- A group with a slice of its own comes in.
    pub add_group-Matches :
        (has_server : Bool) (parent : Option ℕ) (cells : List H) (s : Slice) (m : Memory H)
        → Copied cells r.memory s m
        → Matches (add_group has_server parent s m r) (add_entry has_server cells v)
    unfolding add_group
    add_group-Matches has_server parent cells s m c = record {
      same_size = ap suc h.same_size;
      group_fits = λ g lt. elim (Bool-cases (r.size == g)) [
        | inl new ↦ rw new c.fits
        | inr old ↦ rw old (
            let fit = h.group_fits g (below g lt old) in
            kept-Fits r.memory m (r.groups g).handlers c.grows (c.frame _ fit.0) fit)
      ];
      route_fits = λ event.
          kept-RouteFits r.memory m (r.routes event) c.grows
            (old-KeepsRoute r.memory m (r.routes event) (h.route_fits event) c.frame)
            (h.route_fits event);
      groups_apart = λ g k ltg ltk ne. elim (Bool-cases (r.size == g)) [
        | inl new ↦ elim (Bool-cases (r.size == k)) [
          | inl new' ↦ absurd (ne (ground arith))
          | inr old' ↦
              rw (new, old')
                (λ e. absurd (omega (arith, c.fresh, (h.group_fits k (below k ltk old')).0, e)))
        ]
        | inr old ↦ elim (Bool-cases (r.size == k)) [
          | inl new' ↦
              rw (old, new')
                (λ e. absurd (omega (arith, c.fresh, (h.group_fits g (below g ltg old)).0, e)))
          | inr old' ↦ rw (old, old') (h.groups_apart g k (below g ltg old) (below k ltk old') ne)
        ]
      ];
      routes_apart = λ g event lt. elim (Bool-cases (r.size == g)) [
        | inl new ↦
            rw new (new-IsApart r.memory (r.routes event) s.array (h.route_fits event) c.fresh)
        | inr old ↦ rw old (h.routes_apart g event (below g lt old))
      ];
      same_served = λ g lt. elim (Bool-cases (r.size == g)) [
        | inl new ↦ rw (← h.same_size, new)
        | inr old ↦ rw (← h.same_size, old) (h.same_served g (below g lt old))
      ];
      same_handlers = λ g lt. elim (Bool-cases (r.size == g)) [
        | inl new ↦ rw (← h.same_size, new) c.own
        | inr old ↦
            rw (← h.same_size, old)
              (let fit = h.group_fits g (below g lt old) in
                kept-contents r.memory m (r.groups g).handlers (c.frame _ fit.0)
                ∙ h.same_handlers g (below g lt old))
      ];
      same_routes = λ event.
          kept-route r.memory m (r.routes event)
            (old-KeepsRoute r.memory m (r.routes event) (h.route_fits event) c.frame)
          ∙ h.same_routes event;
    }
      where
        below : (g : ℕ) → g < suc r.size → (r.size == g) ≡ false → g < r.size
        below g lt old = ground arith
