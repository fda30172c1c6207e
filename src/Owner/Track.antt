-- ===== src/Owner/Track.antt =====
-- server.go, manager.go: where a connection that the manager was given can be, whatever the moves.
use ramix.Manager
use ramix.Owner.{
  Fleet, Move, with_conn, move_connection, move_add, move_remove, move_leave, move_finalized,
  move_pool, move_server,
}
use ramix.Prelude.{
  ℕ, ◌≡◌, true, Bool, inl, ◌⊎◌, arith, ℕ_discrete, ◌==◌, not, inr, ap, ◌||◌, ◌&&◌, ==-ne, ◌∙◌, sym,
  false,
}
use ramix.Manager.Holds.{
  IsManager, has_key, add_connection-IsManager, snapshot-add, has_key-insert, leave_group-IsManager,
  snapshot-leave, has_key-delete,
}
use ramix.Connection.{NetConnection}
use ramix.Connection.Requests.{CloseReason}
use ramix.Manager.{begin_finalizing, mark_finalized}
use mathlib.Core.Path.{subst}
-- The manager has it, or its supervisor is finalizing it, or it is closed.
use ramix.Owner.Keeps.{Kept, Forward, Step-Forward, replaced}

pub record Tracked (id : ℕ) (f : Fleet) : Type 0 where
  pub sound : IsManager f.manager
  pub place :
      (has_key id (Manager.snapshot f.manager) ≡ true)
      ⊎ (has_key id f.manager.finalizing ≡ true)
      ⊎ ((f.conns id).state ≡ 3)

-- Where a connection with these look-ups and this state is.
abbrev pub Placed : Bool → Bool → ℕ → Type 0
Placed held final state = (held ≡ true) ⊎ (final ≡ true) ⊎ (state ≡ 3)

added :
    (id other : ℕ) {held final : Bool} {state : ℕ}
    → Placed held final state
    → Placed (other == id || held) final state
added id other (inl e) = inl (ground arith)
added id other (inr rest) = inr rest

removed :
    (id other : ℕ) {held final : Bool} {state : ℕ}
    → Placed held final state
    → Placed held (other == id || final) state
removed id other (inl e) = inl e
removed id other (inr (inl e)) = inr (inl (ground arith))
removed id other (inr (inr e)) = inr (inr e)

-- The one that leaves its group is being finalized.
left :
    (id other : ℕ) {held final : Bool} {state : ℕ}
    → (other ≡ id → final ≡ true)
    → Placed held final state
    → Placed (not (other == id) && held) final state
left id other goes (inl e) = elim (ℕ_discrete other id) [
  | Dec.yes same ↦ inr (inl (goes same))
  | Dec.no ne ↦ let ne' = ==-ne other id ne in inl (ground arith)
]
left id other goes (inr rest) = inr rest

-- The one that is marked is closed.
marked :
    (id other : ℕ) {held final : Bool} {state : ℕ}
    → (other ≡ id → state ≡ 3)
    → Placed held final state
    → Placed held (not (other == id) && final) state
marked id other goes (inl e) = inl e
marked id other goes (inr (inl e)) = elim (ℕ_discrete other id) [
  | Dec.yes same ↦ inr (inr (goes same))
  | Dec.no ne ↦ let ne' = ==-ne other id ne in inr (inl (ground arith))
]
marked id other goes (inr (inr e)) = inr (inr e)

-- It is being finalized or closed.
abbrev pub HasLeft : ℕ → Fleet → Type 0
HasLeft id f = Placed false (has_key id f.manager.finalizing) (f.conns id).state

pub HasLeft-Kept : (id : ℕ) → Kept (HasLeft id)
unfolding begin_finalizing mark_finalized Manager.add_connection Manager.leave_group
HasLeft-Kept id = record { move = moved; call = called; pool = λ p f l. l }
  where
    called :
        (other : ℕ) (c : NetConnection CloseReason) (f : Fleet)
        → Forward (f.conns other) c
        → HasLeft id f
        → HasLeft id (with_conn other c f)
    called other c f forward (inl e) = inl e
    called other c f forward (inr (inl final)) = inr (inl final)
    called other c f forward (inr (inr e)) = inr (
        inr (
          replaced (λ (d : NetConnection CloseReason). d.state ≡ 3) id other c f.conns
            forward.closed e))

    moved : {f g : Fleet} → Move f g → HasLeft id f → HasLeft id g
    moved (move_connection f other c step) l = called other c f (Step-Forward step) l
    moved (move_add f other) l = l
    moved (move_remove f other) l =
        subst (λ b. Placed false b (f.conns id).state)
          (sym (has_key-insert other id f.manager.finalizing)) (removed id other l)
    moved (move_leave f other final) l = l
    moved (move_finalized f other closed) l =
        subst (λ b. Placed false b (f.conns id).state)
          (sym (has_key-delete other id f.manager.finalizing))
          (marked id other (λ e. ap (λ k. (f.conns k).state) (sym e) ∙ closed) l)
    moved (move_pool f p) l = l
    moved (move_server f s step) l = l

with_conn-Tracked :
    (id other : ℕ) (c : NetConnection CloseReason) (f : Fleet)
    → Forward (f.conns other) c
    → Tracked id f
    → Tracked id (with_conn other c f)
with_conn-Tracked id other c f forward t = record {
  sound = t.sound;
  place = elim t.place [
    | inl held ↦ inl held
    | inr (inl final) ↦ inr (inl final)
    | inr (inr closed) ↦ inr (
        inr (
          replaced (λ (d : NetConnection CloseReason). d.state ≡ 3) id other c f.conns
            forward.closed closed))
  ];
}

-- A move loses no connection.
Move-Tracked : (id : ℕ) {f g : Fleet} → Move f g → Tracked id f → Tracked id g
unfolding begin_finalizing mark_finalized Manager.snapshot Manager.add_connection
    Manager.leave_group
Move-Tracked id (move_connection f other c step) t =
    with_conn-Tracked id other c f (Step-Forward step) t
Move-Tracked id (move_add f other) t = record {
  sound = add_connection-IsManager other f.manager t.sound;
  place =
      subst (λ b. Placed b (has_key id f.manager.finalizing) (f.conns id).state)
        (sym (snapshot-add other id f.manager t.sound)) (added id other t.place);
}
Move-Tracked id (move_remove f other) t = record {
  sound = record { some_group = t.sound.some_group; sorted = t.sound.sorted };
  place =
      subst (λ b. Placed (has_key id (Manager.snapshot f.manager)) b (f.conns id).state)
        (sym (has_key-insert other id f.manager.finalizing)) (removed id other t.place);
}
Move-Tracked id (move_leave f other final) t = record {
  sound = leave_group-IsManager other f.manager t.sound;
  place =
      subst (λ b. Placed b (has_key id f.manager.finalizing) (f.conns id).state)
        (sym (snapshot-leave other id f.manager t.sound))
        (left id other (λ e. ap (λ k. has_key k f.manager.finalizing) (sym e) ∙ final) t.place);
}
Move-Tracked id (move_finalized f other closed) t = record {
  sound = record { some_group = t.sound.some_group; sorted = t.sound.sorted };
  place =
      subst (λ b. Placed (has_key id (Manager.snapshot f.manager)) b (f.conns id).state)
        (sym (has_key-delete other id f.manager.finalizing))
        (marked id other (λ e. ap (λ k. (f.conns k).state) (sym e) ∙ closed) t.place);
}
Move-Tracked id (move_pool f p) t = record { sound = t.sound; place = t.place }
Move-Tracked id (move_server f s step) t = record { sound = t.sound; place = t.place }

pub Tracked-Kept : (id : ℕ) → Kept (Tracked id)
Tracked-Kept id = record {
  move = Move-Tracked id;
  call = with_conn-Tracked id;
  pool = λ p f t. record { sound = t.sound; place = t.place };
}
