-- ===== src/Frame/Feed.antt =====
-- A connection's reads, one after the other: they give what one call on all the bytes gives.
use ramix.Prelude.{List, ℕ, ◌≡◌, [], Result, ok, arith, ◌∷◌, ◌++◌, err, panic, sym, stuck, refl, ap}
use ramix.Frame.Config.{Settings, IsSound, decoder_of}
use ramix.Frame.Reference.{next_frame}
use ramix.Frame.{FrameDecoder, decode}
use ramix.Frame.Stream.{
  IsIdle, decode_ok_state, decode_chunks, decode_nothing, decode_chunks_err, decode_err_state,
}
use ramix.Frame.Split.{prepend}
use ramix.Bytes.{All, IsByte}
use ramix.Frame.Loop.{decode_ends}

abbrev pub concat : List (List ℕ) → List ℕ
concat [] = []
concat (x ∷ xs) = x ++ concat xs

All-append_parts : (xs ys : List ℕ) → All IsByte (xs ++ ys) → All IsByte xs × All IsByte ys
All-append_parts [] ys h = (tt, h)
All-append_parts (x ∷ xs) ys h = let (hx, hy) = All-append_parts xs ys h.1 in ((h.0, hx), hy)

-- What a call returns, then what the calls after it return; an error is the last result.
abbrev then_feed :
    FrameDecoder
    → Result (List (List ℕ))
    → FrameDecoder × Result (List (List ℕ))
    → FrameDecoder × Result (List (List ℕ))
then_feed d (ok out) (d', r) = (d', prepend out r)
then_feed d (err e) later = (d, err e)
then_feed d panic later = (d, panic)
then_feed d stuck later = (d, stuck)

unfoldable pub feed : List (List ℕ) → FrameDecoder → FrameDecoder × Result (List (List ℕ))
feed [] d = (d, ok [])
feed (chunk ∷ chunks) d =
    then_feed (decode d chunk).0 (decode d chunk).1 (feed chunks (decode d chunk).0)

pub IsIdle-nil : (c : Settings) → IsSound c → IsIdle c []
unfolding next_frame
IsIdle-nil c s = ground arith

feed_step :
    (chunk : List ℕ) (chunks : List (List ℕ)) (d d' : FrameDecoder) (r : Result (List (List ℕ)))
    → decode d chunk ≡ (d', r)
    → feed (chunk ∷ chunks) d ≡ then_feed d' r (feed chunks d')
unfolding feed
feed_step chunk chunks d d' r e = ap (λ p. then_feed p.0 p.1 (feed chunks p.0)) e

then_feed_parts :
    (d last : FrameDecoder) (r : Result (List (List ℕ)))
    (later : FrameDecoder × Result (List (List ℕ))) (frames : List (List ℕ))
    → then_feed d r later ≡ (last, ok frames)
    → (out : List (List ℕ)) × (rest : List (List ℕ)) × (r ≡ ok out)
      × (later ≡ (last, ok rest))
      × (frames ≡ out ++ rest)
then_feed_parts d last (ok out) (d', ok rest) frames e = (
  out,
  rest,
  refl,
  ap (λ (x : FrameDecoder × Result (List (List ℕ))). (x.0, ok rest)) e,
  let f = ap (λ (x : FrameDecoder × Result (List (List ℕ))). x.1) e in cc,
)
then_feed_parts d last (ok out) (d', err x) frames e =
    absurd (let f = ap (λ (x : FrameDecoder × Result (List (List ℕ))). x.1) e in cc)
then_feed_parts d last (ok out) (d', panic) frames e =
    absurd (let f = ap (λ (x : FrameDecoder × Result (List (List ℕ))). x.1) e in cc)
then_feed_parts d last (ok out) (d', stuck) frames e =
    absurd (let f = ap (λ (x : FrameDecoder × Result (List (List ℕ))). x.1) e in cc)
then_feed_parts d last (err x) later frames e =
    absurd (let f = ap (λ (x : FrameDecoder × Result (List (List ℕ))). x.1) e in cc)
then_feed_parts d last panic later frames e =
    absurd (let f = ap (λ (x : FrameDecoder × Result (List (List ℕ))). x.1) e in cc)
then_feed_parts d last stuck later frames e =
    absurd (let f = ap (λ (x : FrameDecoder × Result (List (List ℕ))). x.1) e in cc)

-- Reads that all succeed: what the first one gives, and what the others do.
pub feed-ok :
    (d : FrameDecoder) (chunk : List ℕ) (chunks : List (List ℕ)) (last : FrameDecoder)
    (frames : List (List ℕ))
    → feed (chunk ∷ chunks) d ≡ (last, ok frames)
    → (out : List (List ℕ)) × (rest : List (List ℕ)) × ((decode d chunk).1 ≡ ok out)
      × (feed chunks (decode d chunk).0 ≡ (last, ok rest))
      × (frames ≡ out ++ rest)
unfolding feed
feed-ok d chunk chunks last frames e =
    then_feed_parts (decode d chunk).0 last (decode d chunk).1 (feed chunks (decode d chunk).0)
      frames e

pub feed-nil :
    (d last : FrameDecoder) (frames : List (List ℕ)) → feed [] d ≡ (last, ok frames) → [] ≡ frames
unfolding feed
feed-nil d last frames e = let f = ap (λ (x : FrameDecoder × Result (List (List ℕ))). x.1) e in cc

module _ (c : Settings) (s : IsSound c) where
  feed-concat_at :
      (chunk : List ℕ) (chunks : List (List ℕ)) (kept : List ℕ) (d : FrameDecoder)
      (r : Result (List (List ℕ)))
      → All IsByte kept
      → All IsByte chunk
      → All IsByte (concat chunks)
      → ((rest : List ℕ)
          → IsIdle c rest
          → All IsByte rest
          → feed chunks (decoder_of c rest) ≡ decode (decoder_of c rest) (concat chunks))
      → decode (decoder_of c kept) chunk ≡ (d, r)
      → feed (chunk ∷ chunks) (decoder_of c kept)
        ≡ decode (decoder_of c kept) (chunk ++ concat chunks)
  feed-concat_at chunk chunks kept d (ok out) hk hc hs ih e =
      let (rest, de, idle, hr) = decode_ok_state c kept chunk s hk hc e in
      rw (
        feed_step chunk chunks (decoder_of c kept) d (ok out) e,
        decode_chunks c kept chunk (concat chunks) s hk hc hs e,
        de,
        ih rest idle hr,
      )
  feed-concat_at chunk chunks kept d (err x) hk hc hs ih e = rw (
    feed_step chunk chunks (decoder_of c kept) d (err x) e,
    decode_chunks_err c kept chunk (concat chunks) s hk hc hs e,
    decode_err_state c kept chunk s hk hc e,
  )
  feed-concat_at chunk chunks kept d panic hk hc hs ih e =
      absurd (rw e at ((decode_ends c kept chunk s hk hc).0))
  feed-concat_at chunk chunks kept d stuck hk hc hs ih e =
      absurd (rw e at ((decode_ends c kept chunk s hk hc).0))

  pub feed-concat :
      (chunks : List (List ℕ)) (kept : List ℕ)
      → IsIdle c kept
      → All IsByte kept
      → All IsByte (concat chunks)
      → feed chunks (decoder_of c kept) ≡ decode (decoder_of c kept) (concat chunks)
  feed-concat [] kept idle hk hs = unfold feed in sym (decode_nothing c kept s hk idle)
  feed-concat (chunk ∷ chunks) kept idle hk hs =
      let (hc, hr) = All-append_parts chunk (concat chunks) hs in
      feed-concat_at chunk chunks kept (decode (decoder_of c kept) chunk).0
        (decode (decoder_of c kept) chunk).1 hk hc hr (λ rest i b. feed-concat chunks rest i b hr)
        refl
