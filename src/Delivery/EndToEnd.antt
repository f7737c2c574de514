-- ===== src/Delivery/EndToEnd.antt =====
-- What each application reads against what the other has written (minitcp/net/tcp/connection.py).
use mini_tcp.Base.{
  ℕ, ◌+◌, ◌-◌, ◌≤◌, ◌<◌, ◌≡◌, refl, sym, ap, ◌∙◌, Option, none, some, List, [], ◌∷◌, arith, length,
  take, get_or, length-append,
}
use mini_tcp.Base.Slices.{slice-get_or}
use mini_tcp.Seqno.{seq_half}
use mini_tcp.Time.{TimeOps}
use mini_tcp.Segment.{TcpSegment, is_rst, is_syn, flag_syn}
use mini_tcp.Send
use mini_tcp.Receive
use mini_tcp.Congestion
use mini_tcp.State.{listen}
use mini_tcp.Connection.Outbound.{
  transmit, segment_of, hand_over, track_segment, arm_retransmit_timer,
}
use mini_tcp.Connection.Inbound.{
  handle_segment_in_listen, child_config, begin_passive_open, syn_options,
}
use mini_tcp.Connection.{Connection, Config, make, choose_iss}
use mini_tcp.Connection.Application.{open_actively}
use mini_tcp.Connection.Guards.{sent}
use mini_tcp.Delivery.Receiving.{swap}
use mini_tcp.Delivery.Phases.{opening, answering, tighten}
use mini_tcp.Delivery.System.{
  System, Turn, at_left, at_right, step, run, endpoint, answered_by, start, converse, offered_left,
  offered_right,
}
use mini_tcp.Delivery.Acting.{new_bytes, written-act, length-new_bytes}
use mini_tcp.Delivery.Starting.{open_actively-Opening, begin_passive_open-Answering}
use mini_tcp.Delivery.Conversing.{streams, Streamed, run-Streamed, begins}

module _ {T : Type 0} ⦃ops : TimeOps T⦄ where
  written-run :
      (s : System T) (turns : List (Turn T))
      → (length (run s turns).left.written ≤ length s.left.written + offered_left turns)
        × (length (run s turns).right.written ≤ length s.right.written + offered_right turns)
  unfolding run step
  written-run s [] = (omega arith, omega arith)
  written-run s (at_left e ∷ turns) =
      let (l, r) = written-run (step s (at_left e)) turns in
      let grown =
        ap length (written-act s.right.conn.log s.left e)
        ∙ length-append s.left.written (new_bytes s.left e) in
      (omega (arith, grown, length-new_bytes s.left e, l), r)
  written-run s (at_right e ∷ turns) =
      let (l, r) = written-run (step s (at_right e)) turns in
      let grown =
        ap length (written-act s.left.conn.log s.right e)
        ∙ length-append s.right.written (new_bytes s.right e) in
      (l, omega (arith, grown, length-new_bytes s.right e, r))

  -- The two ends of a new conversation, and the initial sequence numbers.
  record Started (config listener : Config T) (result : Option (System T)) : Type 0 where
    system : System T
    started : result ≡ some system
    nothing_left : system.left.written ≡ []
    nothing_right : system.right.written ≡ []
    iss : ℕ
    iss' : ℕ
    streamed : (limit : ℕ) (half : limit < seq_half) → Streamed limit half iss iss' system

  -- The SYN that the left end sends first.
  syn_of : Config T → ℕ → TcpSegment
  unfolding make
  syn_of config random =
      let iss = choose_iss config.iss_override random in
      let opened = record (make config) {
        iss = iss;
        send_queue = Send.make iss config.send_capacity;
        recv_queue = Receive.make 0 config.receive_capacity;
        reno = Congestion.make config.mss none none;
      } in
      segment_of opened iss flag_syn [] none (some (syn_options opened))

  child_of : Config T → Config T → T → ℕ → ℕ → Connection T
  child_of config listener now random random' =
      let syn = syn_of config random in
      begin_passive_open
        (make (child_config (record (make listener) { state = listen }) syn (some config.local_ip)))
        syn now random'

  start_lem :
      (config listener : Config T) (now : T) (random random' : ℕ)
      → config.send_capacity < seq_half
      → listener.send_capacity < seq_half
      → Started config listener (start config listener now random random')
  unfolding start answered_by handle_segment_in_listen open_actively is_rst is_syn transmit
      segment_of hand_over track_segment sent make syn_of child_of child_config arm_retransmit_timer
  start_lem config listener now random random' narrow narrow' = record {
    system = record {
      left = endpoint (open_actively (make config) now random);
      right = endpoint (child_of config listener now random random');
    };
    started = refl;
    nothing_left = refl;
    nothing_right = refl;
    iss = choose_iss config.iss_override random;
    iss' = choose_iss listener.iss_override random';
    streamed = λ limit half S R l r low low'.
        let V =
          streams limit half (choose_iss config.iss_override random)
            (choose_iss listener.iss_override random') S R in
        let syn = syn_of config random in
        (
          0,
          0,
          (opening refl refl refl (open_actively-Opening V 0 config now random refl narrow), refl),
          (
            answering refl refl refl (
                begin_passive_open-Answering (swap V) 0
                  (child_config (record (make listener) { state = listen }) syn
                    (some config.local_ip))
                  syn now random' (omega arith) refl refl narrow'),
            refl,
          ),
        );
  }

  -- What was read begins what was written.
  reads_written :
      (limit : ℕ) (half : limit < seq_half) (iss iss' : ℕ) (s : System T)
      → Streamed limit half iss iss' s
      → length s.left.written ≤ limit
      → length s.right.written ≤ limit
      → (s.right.read ≡ take (length s.right.read) s.left.written)
        × (s.left.read ≡ take (length s.left.read) s.right.written)
  reads_written limit half iss iss' s h low low' =
      let S : ℕ → ℕ = λ i. get_or s.left.written i 0 in
      let R : ℕ → ℕ = λ i. get_or s.right.written i 0 in
      let l = sym (slice-get_or s.left.written) in
      let r = sym (slice-get_or s.right.written) in
      let V = streams limit half iss iss' S R in
      let (x, y, on_left, on_right) = h S R l r low low' in
      let left = tighten V (length s.left.written) x (length s.left.read) y s.left.conn on_left.0 in
      let right =
        tighten (swap V) (length s.right.written) y (length s.right.read) x s.right.conn
          on_right.0 in
      (
        begins S s.left.written s.right.read l on_right.1 (omega (arith, left.1, left.2, right.3)),
        begins R s.right.written s.left.read r on_left.1 (omega (arith, right.1, right.2, left.3)),
      )

  -- Two ends, of which one connects and the other is the child that a listener makes for its SYN,
  -- exchange segments over a network that loses, repeats, delays and reorders them but alters and
  -- invents none, while time passes and each application writes, reads and may abort, in any order. If the
  -- send buffers hold, and each application offers, less than 2 ^ 31 bytes, then the conversation
  -- takes place, and all that either application has read is the beginning of what the other has written.
  pub delivers_in_order :
      (config listener : Config T) (now : T) (random random' : ℕ) (turns : List (Turn T))
      → config.send_capacity < seq_half
      → listener.send_capacity < seq_half
      → offered_left turns < seq_half
      → offered_right turns < seq_half
      → (s : System T) × (converse config listener now random random' turns ≡ some s)
        × (s.right.read ≡ take (length s.right.read) s.left.written)
        × (s.left.read ≡ take (length s.left.read) s.right.written)
  unfolding converse
  delivers_in_order config listener now random random' turns narrow narrow' few few' =
      let begun = start_lem config listener now random random' narrow narrow' in
      let limit = seq_half - 1 in
      let half : limit < seq_half = omega arith in
      let (l, r) = written-run begun.system turns in
      let kept =
        run-Streamed limit half begun.iss begun.iss' begun.system turns
          (begun.streamed limit half) in
      let prefixes =
        reads_written limit half begun.iss begun.iss' (run begun.system turns) kept
          (omega (arith, l, ap length begun.nothing_left))
          (omega (arith, r, ap length begun.nothing_right)) in
      (run begun.system turns, rw (begun.started, converse) refl, prefixes.0, prefixes.1)
