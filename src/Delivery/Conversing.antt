-- ===== src/Delivery/Conversing.antt =====
-- Both ends of a conversation (minitcp/net/tcp/connection.py) on two byte streams.
use mini_tcp.Base.{
  ℕ, ◌≤◌, ◌<◌, ◌≡◌, sym, ap, ◌∙◌, subst, List, [], ◌∷◌, ◌++◌, arith, Bytes, length, take,
  length-append, length-take, take-append, drop, drop-append_length,
}
use mini_tcp.Base.Slices.{slice, IsPart, take-IsPart, drop-IsPart}
use mini_tcp.Seqno.{seq_half}
use mini_tcp.Time.{TimeOps}
use mini_tcp.Delivery.Genuine.{Streams}
use mini_tcp.Delivery.Receiving.{swap}
use mini_tcp.Delivery.Phases.{widen, tighten}
use mini_tcp.Delivery.System.{Event, System, Turn, at_left, at_right, step, run}
use mini_tcp.Delivery.Acting.{new_bytes, written-act, OnStreams, act-OnStreams}

abbrev pub streams : (limit : ℕ) → limit < seq_half → ℕ → ℕ → (ℕ → ℕ) → (ℕ → ℕ) → Streams
streams limit half iss iss' S R = record {
  own = S;
  iss = iss;
  peer = R;
  peer_iss = iss';
  limit = limit;
  half = half;
}

IsPart-front :
    (S : ℕ → ℕ) (d e : Bytes) → IsPart S 0 (d ++ e) → IsPart S 0 d × IsPart S (length d) e
IsPart-front S d e h = (
  subst (IsPart S 0) (take-append d e) (take-IsPart S 0 (length d) (d ++ e) h),
  subst (IsPart S (length d)) (drop-append_length d e) (
      subst (λ p. IsPart S p (drop (length d) (d ++ e))) (omega arith)
        (drop-IsPart S 0 (length d) (d ++ e) h)),
)

module _ {T : Type 0} ⦃ops : TimeOps T⦄ (limit : ℕ) (half : limit < seq_half) (iss iss' : ℕ) where
  -- Both endpoints are on the streams, and neither has heard of bytes that the other did not send.
  abbrev pub Joined : (ℕ → ℕ) → (ℕ → ℕ) → System T → Type 0
  Joined S R s =
      let V = streams limit half iss iss' S R in
      (x : ℕ) × (y : ℕ) × OnStreams V x y s.left × OnStreams (swap V) y x s.right

  -- On any two streams that the written bytes begin.
  abbrev pub Streamed : System T → Type 0
  Streamed s =
      (S R : ℕ → ℕ)
      → IsPart S 0 s.left.written
      → IsPart R 0 s.right.written
      → length s.left.written ≤ limit
      → length s.right.written ≤ limit
      → Joined S R s

  left-Streamed : (s : System T) (e : Event T) → Streamed s → Streamed (step s (at_left e))
  unfolding step
  left-Streamed s e h S R l r low low' =
      let grown = written-act s.right.conn.log s.left e in
      let (before, part) =
        IsPart-front S s.left.written (new_bytes s.left e) (subst (IsPart S 0) grown l) in
      let lengths = ap length grown ∙ length-append s.left.written (new_bytes s.left e) in
      let V = streams limit half iss iss' S R in
      let (x, y, on_left, on_right) = h S R before r (omega (arith, lengths)) low' in
      let (at, least, most, seen, p, genuine) =
        tighten (swap V) (length s.right.written) y (length s.right.read) x s.right.conn
          on_right.0 in
      let wide =
        widen V (length s.left.written) x (length s.left.read) y at s.left.conn least (omega arith)
          on_left.0 in
      (
        x,
        at,
        act-OnStreams V x at s.right.conn.log s.left e genuine (omega (arith, lengths))
            (omega arith) part (wide, on_left.1),
        (p, on_right.1),
      )

pub begins :
    (S : ℕ → ℕ) (written read : Bytes)
    → IsPart S 0 written
    → IsPart S 0 read
    → length read ≤ length written
    → read ≡ take (length read) written
begins S written read h k fewer =
    k
    ∙ ap (slice S 0) (omega (arith, length-take (length read) written))
    ∙ sym (take-IsPart S 0 (length read) written h)

-- The conversation seen from the other side.
abbrev flip : {T : Type 0} → System T → System T
flip s = record { left = s.right; right = s.left }

module _ {T : Type 0} ⦃ops : TimeOps T⦄ (limit : ℕ) (half : limit < seq_half) where
  flip-Streamed :
      (iss iss' : ℕ) (s : System T)
      → Streamed limit half iss iss' s
      → Streamed limit half iss' iss (flip s)
  flip-Streamed iss iss' s h S R l r low low' =
      let (x, y, on_left, on_right) = h R S r l low' low in (y, x, on_right, on_left)

  step-Streamed :
      (iss iss' : ℕ) (s : System T) (turn : Turn T)
      → Streamed limit half iss iss' s
      → Streamed limit half iss iss' (step s turn)
  unfolding step
  step-Streamed iss iss' s (at_left e) h = left-Streamed limit half iss iss' s e h
  step-Streamed iss iss' s (at_right e) h =
      flip-Streamed iss' iss (step (flip s) (at_left e))
        (left-Streamed limit half iss' iss (flip s) e (flip-Streamed iss iss' s h))

  pub run-Streamed :
      (iss iss' : ℕ) (s : System T) (turns : List (Turn T))
      → Streamed limit half iss iss' s
      → Streamed limit half iss iss' (run s turns)
  unfolding run
  run-Streamed iss iss' s [] h = h
  run-Streamed iss iss' s (turn ∷ turns) h =
      run-Streamed iss iss' (step s turn) turns (step-Streamed iss iss' s turn h)
