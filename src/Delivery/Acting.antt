-- ===== src/Delivery/Acting.antt =====
-- What an event does to an endpoint on two byte streams (minitcp/net/tcp/connection.py).
use mini_tcp.Base.{
  ℕ, ◌≤◌, ◌≡◌, refl, sym, subst, Option, none, some, List, [], ◌++◌, arith, Bytes, length,
  get_elem?, All, All-get_elem?, Option-cases, inl, inr, length-append, length-take, append-nil,
}
use mini_tcp.Base.Slices.{IsPart, append-IsPart}
use mini_tcp.Time.{TimeOps}
use mini_tcp.Connection.{Connection, Effect}
use mini_tcp.Connection.Application.{send, recv}
use mini_tcp.Connection.Guards.{sent}
use mini_tcp.Delivery.Genuine.{Streams, IsGenuine}
use mini_tcp.Delivery.Receiving.{swap}
use mini_tcp.Delivery.Phases.{Phase}
use mini_tcp.Delivery.Arrivals.{on_segment-Phase}
use mini_tcp.Delivery.Ticking.{on_tick-Phase}
use mini_tcp.Delivery.Using.{accept_bytes, send-Phase, recv-Phase, abort-Phase}
use mini_tcp.Delivery.System.{
  Endpoint, Event, delivers, ticks, writes, reads, aborts, take_in, act, offered,
}

module _ {T : Type 0} ⦃ops : TimeOps T⦄ where
  -- What an event adds to the written bytes.
  abbrev pub new_bytes : Endpoint T → Event T → Bytes
  new_bytes e (writes bytes now) = (accept_bytes e.conn bytes (send e.conn bytes now)).1
  new_bytes e _ = []

  pub written-act :
      (log : List Effect) (e : Endpoint T) (event : Event T)
      → (act log e event).written ≡ e.written ++ new_bytes e event
  unfolding act take_in
  written-act log e (delivers i src_ip now random) = elim (Option-cases (get_elem? (sent log) i)) [
    | inl k ↦ rw k (sym (append-nil e.written))
    | inr (seg, k) ↦ rw k (sym (append-nil e.written))
  ]
  written-act log e (ticks now) = sym (append-nil e.written)
  written-act log e (writes bytes now) = refl
  written-act log e (reads max_bytes now) = sym (append-nil e.written)
  written-act log e (aborts now) = sym (append-nil e.written)

  length-accept_bytes :
      (c : Connection T) (bytes : Bytes) (result : Option (Connection T × ℕ))
      → length (accept_bytes c bytes result).1 ≤ length bytes
  unfolding accept_bytes
  length-accept_bytes c bytes none = omega arith
  length-accept_bytes c bytes (some (d, count)) = omega (arith, length-take count bytes)

  pub length-new_bytes :
      (e : Endpoint T) (event : Event T) → length (new_bytes e event) ≤ offered event
  length-new_bytes e (writes bytes now) = length-accept_bytes e.conn bytes (send e.conn bytes now)
  length-new_bytes e (delivers i src_ip now random) = omega arith
  length-new_bytes e (ticks now) = omega arith
  length-new_bytes e (reads max_bytes now) = omega arith
  length-new_bytes e (aborts now) = omega arith

module _ (V : Streams) where
  module _ {T : Type 0} ⦃ops : TimeOps T⦄ where
    -- The endpoint is on the streams: the bytes before `x` were sent, and the peer has sent none
    -- beyond `y`.
    abbrev pub OnStreams : ℕ → ℕ → Endpoint T → Type 0
    OnStreams x y e = Phase V (length e.written) x (length e.read) y e.conn × IsPart V.peer 0 e.read

    -- Any event keeps the endpoint on the streams.
    pub act-OnStreams :
        (x y : ℕ) (log : List Effect) (e : Endpoint T) (event : Event T)
        → All (IsGenuine (swap V) y x) (sent log)
        → length e.written ≤ V.limit
        → y ≤ V.limit
        → IsPart V.own (length e.written) (new_bytes e event)
        → OnStreams x y e
        → OnStreams x y (act log e event)
    unfolding act take_in
    act-OnStreams x y log e (delivers i src_ip now random) g low y_low part (p, read) =
        elim (Option-cases (get_elem? (sent log) i)) [
          | inl k ↦ rw k (p, read)
          | inr (seg, k) ↦ rw k (
            on_segment-Phase V (length e.written) x (length e.read) y low y_low e.conn seg src_ip
                now random (All-get_elem? (IsGenuine (swap V) y x) (sent log) i g k) p,
            read,
          )
        ]
    act-OnStreams x y log e (ticks now) g low y_low part (p, read) =
        (on_tick-Phase V (length e.written) x (length e.read) y e.conn now p, read)
    act-OnStreams x y log e (writes bytes now) g low y_low part (p, read) =
        let (conn, accepted) = accept_bytes e.conn bytes (send e.conn bytes now) in
        (
          subst (λ w. Phase V w x (length e.read) y conn) (sym (length-append e.written accepted))
              (send-Phase V (length e.written) x (length e.read) y e.conn bytes now p part),
          read,
        )
    act-OnStreams x y log e (reads max_bytes now) g low y_low _ (p, read) =
        let (conn, chunk) = recv e.conn max_bytes now in
        let (part, next) =
          recv-Phase V (length e.written) x (length e.read) y e.conn max_bytes now p in
        (
          subst (λ r. Phase V (length e.written) x r y conn) (sym (length-append e.read chunk))
              next,
          append-IsPart V.peer 0 (length e.read) e.read chunk read part (omega arith),
        )
    act-OnStreams x y log e (aborts now) g low y_low part (p, read) =
        (abort-Phase V (length e.written) x (length e.read) y e.conn now p, read)
