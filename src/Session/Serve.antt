-- ===== src/Session/Serve.antt =====
-- What a session promises: its requests are handled one after the other, up to the first that is
-- refused. This is the readers' specification, over whole messages.
use ramix.Session.{
  Environment, Session, End, reading, ended, crashed, handle_request, count_message, go_on,
  after_submit,
}
use ramix.Session.Tcp.{is_stopping}
use ramix.Prelude.{
  ℕ, Error, length, ◌≡◌, Result, List, ◌++◌, ok, refl, ◌∷◌, err, if◌then◌else◌, Bool-cases, [], inl,
  panic, ap, stuck, if_true, ◌∙◌, sym, inr, if_false, map,
}
use ramix.Codec
use ramix.Codec.{Message, Request, new_request}
use ramix.Connection.{NetConnection}
use ramix.Pool.{accepted, panicked, silent}
use ramix.Pool.{Event, Pool, refused, took}
use ramix.Connection.Requests.{CloseReason}
use mathlib.Core.Path.{fun_ext, subst}
use ramix.Bytes.{All}
use ramix.Frame.Wire.{FitsWire, frames_of}
use ramix.Codec.RoundTrip.{decode-written}

-- The size that the decoder reads is the length of the body.
abbrev pub received : Message → Message
received m = record m { body_size = length m.body }

module _ {H : Type 0} where
  -- The connection of a session that is at its next read.
  abbrev pub StillHas : NetConnection CloseReason → End × Session H → Type 0
  StillHas c (reading, s) = s.conn ≡ c
  StillHas c (ended, s) = Unit
  StillHas c (crashed, s) = Unit

  pub go_on-cong :
      (c : NetConnection CloseReason) (outcome : End × Session H)
      (f g : Session H → End × Session H)
      → StillHas c outcome
      → ((s : Session H) → s.conn ≡ c → f s ≡ g s)
      → go_on outcome f ≡ go_on outcome g
  go_on-cong c (reading, s) f g still same = same s still
  go_on-cong c (ended, s) f g still same = refl
  go_on-cong c (crashed, s) f g still same = refl

  after_submit-conn : (x : Event × Pool) (s : Session H) → (after_submit x s).1.conn ≡ s.conn
  after_submit-conn (accepted i t, p) s = refl
  after_submit-conn (refused t e, p) s = refl
  after_submit-conn (panicked, p) s = refl
  after_submit-conn (silent, p) s = refl
  after_submit-conn (took i t, p) s = refl

  pub handle_request-conn :
      (env : Environment H) (request : Request) (s : Session H)
      → (handle_request env request s).1.conn ≡ s.conn
  unfolding handle_request
  handle_request-conn env request s = after_submit-conn _ _

-- `refuse` is what the reader does about a request that was refused, and `reject` about a frame that
-- is no message.
module _ {H : Type 0} (env : Environment H) (refuse reject : Error → Session H → Session H) where
  abbrev pub served :
      Result (Unit {0}) × Session H → (Session H → End × Session H) → End × Session H
  served (ok _, s) rest = rest s
  served (err e, s) rest = if is_stopping e then (ended, s) else (ended, refuse e s)
  served (panic, s) rest = (crashed, s)
  served (stuck, s) rest = (crashed, s)

  -- A request is counted and handled; a server that is stopping ends the reader with no more ado.
  unfoldable pub serve : List Message → Session H → End × Session H
  serve [] s = (reading, s)
  serve (m ∷ ms) s = served (handle_request env (new_request m) (count_message m s)) (serve ms)

  abbrev pub flow_message :
      Result Message → Session H → (Session H → End × Session H) → End × Session H
  flow_message (ok m) s rest = served (handle_request env (new_request m) (count_message m s)) rest
  flow_message (err e) s rest = (ended, reject e s)
  flow_message panic s rest = (crashed, s)
  flow_message stuck s rest = (crashed, s)

  -- The same over frames.
  unfoldable pub flow : List (List ℕ) → Session H → End × Session H
  flow [] s = (reading, s)
  flow (frame ∷ frames) s = flow_message (Codec.decode frame) s (flow frames)

  served-go_on :
      (x : Result (Unit {0}) × Session H) (f g : Session H → End × Session H)
      → go_on (served x f) g ≡ served x (λ s. go_on (f s) g)
  served-go_on (ok _, s) f g = refl
  served-go_on (err e, s) f g = elim (Bool-cases (is_stopping e)) [
    | inl h ↦ ap (λ (x : End × Session H). go_on x g) (if_true _ _ h) ∙ sym (if_true _ _ h)
    | inr h ↦ ap (λ (x : End × Session H). go_on x g) (if_false _ _ h) ∙ sym (if_false _ _ h)
  ]
  served-go_on (panic, s) f g = refl
  served-go_on (stuck, s) f g = refl

  flow_message-go_on :
      (r : Result Message) (s : Session H) (f g : Session H → End × Session H)
      → go_on (flow_message r s f) g ≡ flow_message r s (λ s. go_on (f s) g)
  flow_message-go_on (ok m) s f g = served-go_on _ f g
  flow_message-go_on (err e) s f g = refl
  flow_message-go_on panic s f g = refl
  flow_message-go_on stuck s f g = refl

  -- Frames in two parts.
  pub flow-append :
      (xs ys : List (List ℕ)) (s : Session H) → flow (xs ++ ys) s ≡ go_on (flow xs s) (flow ys)
  unfolding flow
  flow-append [] ys s = refl
  flow-append (frame ∷ xs) ys s =
      ap (flow_message (Codec.decode frame) s) (fun_ext (flow-append xs ys))
      ∙ sym (flow_message-go_on (Codec.decode frame) s (flow xs) (flow ys))

  served-StillHas :
      (c : NetConnection CloseReason) (x : Result (Unit {0}) × Session H)
      (rest : Session H → End × Session H)
      → x.1.conn ≡ c
      → ((s : Session H) → s.conn ≡ c → StillHas c (rest s))
      → StillHas c (served x rest)
  served-StillHas c (ok _, s) rest same go = go s same
  served-StillHas c (err e, s) rest same go = elim (Bool-cases (is_stopping e)) [
    | inl h ↦ subst (StillHas c) (sym (if_true _ _ h)) tt
    | inr h ↦ subst (StillHas c) (sym (if_false _ _ h)) tt
  ]
  served-StillHas c (panic, s) rest same go = tt
  served-StillHas c (stuck, s) rest same go = tt

  flow_message-StillHas :
      (c : NetConnection CloseReason) (r : Result Message) (s : Session H)
      (rest : Session H → End × Session H)
      → s.conn ≡ c
      → ((s : Session H) → s.conn ≡ c → StillHas c (rest s))
      → StillHas c (flow_message r s rest)
  unfolding count_message
  flow_message-StillHas c (ok m) s rest same go =
      served-StillHas c _ rest (handle_request-conn env (new_request m) (count_message m s) ∙ same)
        go
  flow_message-StillHas c (err e) s rest same go = tt
  flow_message-StillHas c panic s rest same go = tt
  flow_message-StillHas c stuck s rest same go = tt

  -- As long as requests are accepted the connection is left alone.
  pub flow-StillHas :
      (c : NetConnection CloseReason) (frames : List (List ℕ)) (s : Session H)
      → s.conn ≡ c
      → StillHas c (flow frames s)
  unfolding flow
  flow-StillHas c [] s same = same
  flow-StillHas c (frame ∷ frames) s same =
      flow_message-StillHas c (Codec.decode frame) s (flow frames) same (flow-StillHas c frames)

  -- The frames of encoded messages are served as these messages.
  pub flow-frames_of :
      (limit : ℕ) (ms : List Message) (s : Session H)
      → All (FitsWire limit) ms
      → flow (frames_of ms) s ≡ serve (map received ms) s
  unfolding flow serve
  flow-frames_of limit [] s fits = refl
  flow-frames_of limit (m ∷ ms) s (f, fs) =
      ap (λ r. flow_message r s (flow (frames_of ms))) (decode-written m f.event_fits f.body_fits)
      ∙ ap (served (handle_request env (new_request (received m)) (count_message (received m) s)))
          (fun_ext (λ t. flow-frames_of limit ms t fs))
