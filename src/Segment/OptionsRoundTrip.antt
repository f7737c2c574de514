-- ===== src/Segment/OptionsRoundTrip.antt =====
-- Parsing the options that were printed (minitcp/net/tcp/segment.py).
use mini_tcp.Base.{
  ℕ, ◌-◌, ◌%◌, ◌≡◌, refl, sym, ◌∙◌, Bool, true, false, ◌||◌, Option, none, some, [], ◌++◌, arith,
  Bytes, length, append_assoc, subst, ap,
}
use mini_tcp.Segment.{TcpOptions, no_options}
use mini_tcp.Segment.Options.{
  mss_bytes, sack_permitted_bytes, scale_bytes, timestamp_bytes, sack_bytes, padding, finish,
  assemble, to_bytes, parse,
}
use mini_tcp.Segment.OptionsParts.{
  Parses, last_block, or_kept, masked, echoed, padding-Parses, mss_part, scale_part, permitted_part,
  timestamp_part, sack_part,
}

-- What the peer reads: numbers as 32 bits hold them, an echo only with a timestamp, and the last of
-- the SACK blocks alone, since each is printed as an option of its own.
pub as_read : TcpOptions → TcpOptions
as_read o = record {
  mss = o.mss;
  window_scale = o.window_scale;
  sack_permitted = o.sack_permitted;
  sack_blocks = last_block [] o.sack_blocks;
  timestamp = masked o.timestamp;
  timestamp_echo = echoed o.timestamp o.timestamp_echo;
}

kept_none : {A : Type 0} (a : Option A) → or_kept a none ≡ a
kept_none none = refl
kept_none (some a) = refl

kept_false : (p : Bool) → (p || false) ≡ p
kept_false true = refl
kept_false false = refl

-- What the parts add up to, as the loop builds it.
abbrev collected : TcpOptions → TcpOptions
collected o = record {
  mss = or_kept o.mss none;
  window_scale = or_kept o.window_scale none;
  sack_permitted = o.sack_permitted || false;
  sack_blocks = last_block [] o.sack_blocks;
  timestamp = or_kept (masked o.timestamp) none;
  timestamp_echo = or_kept (echoed o.timestamp o.timestamp_echo) none;
}

collected_lem : (o : TcpOptions) → collected o ≡ as_read o
unfolding as_read
collected_lem o =
    rw
      (
        kept_none o.mss,
        kept_none o.window_scale,
        kept_false o.sack_permitted,
        kept_none (masked o.timestamp),
        kept_none (echoed o.timestamp o.timestamp_echo),
      )
      refl

all_parts :
    (o : TcpOptions) (m s : Bytes) (count : ℕ)
    → mss_bytes o.mss ≡ some m
    → scale_bytes o.window_scale ≡ some s
    → Parses
        (m
          ++ (sack_permitted_bytes o.sack_permitted
              ++ (s
                  ++ (timestamp_bytes o.timestamp o.timestamp_echo
                      ++ (sack_bytes o.sack_blocks ++ padding count)))))
        no_options
        (as_read o)
unfolding as_read
all_parts o m s count e e' = mss_part o.mss m _ no_options (as_read o) e (
    permitted_part o.sack_permitted _ _ (as_read o) (
      scale_part o.window_scale s _ _ (as_read o) e' (
        timestamp_part o.timestamp o.timestamp_echo _ _ (as_read o) (
          sack_part o.sack_blocks (padding count) _ (as_read o) (
            subst (λ x. Parses (padding count) (collected o) x) (collected_lem o)
              (padding-Parses count (collected o)))))))

assembled :
    (o : TcpOptions) (x y : Option Bytes) (raw : Bytes)
    → mss_bytes o.mss ≡ x
    → scale_bytes o.window_scale ≡ y
    → assemble o x y ≡ some raw
    → parse raw ≡ as_read o
unfolding assemble finish parse Parses
assembled o none y raw e e' h = absurd (cc)
assembled o (some m) none raw e e' h = absurd (cc)
assembled o (some m) (some s) raw e e' h =
    let sacks = sack_bytes o.sack_blocks in
    let timed = timestamp_bytes o.timestamp o.timestamp_echo in
    let permitted = sack_permitted_bytes o.sack_permitted in
    let body = m ++ (permitted ++ (s ++ (timed ++ sacks))) in
    let count = (4 - length body % 4) % 4 in
    let filler = padding count in
    let nested : body ++ filler ≡ m ++ (permitted ++ (s ++ (timed ++ (sacks ++ filler)))) =
      append_assoc m (permitted ++ (s ++ (timed ++ sacks))) filler
      ∙ ap (◌++◌ m) (
          append_assoc permitted (s ++ (timed ++ sacks)) filler
          ∙ ap (◌++◌ permitted) (
              append_assoc s (timed ++ sacks) filler
              ∙ ap (◌++◌ s) (append_assoc timed sacks filler))) in
    let printed : body ++ filler ≡ raw = ground arith in
    subst (λ x. Parses x no_options (as_read o)) (sym nested ∙ printed) (all_parts o m s count e e')
      (length raw) (omega arith)

-- Options that can be printed are parsed as they were, but for what the format does not carry:
-- numbers are read modulo 2 ^ 32, an echo without a timestamp is lost, and so are all SACK blocks
-- but the last.
pub parse-to_bytes : (o : TcpOptions) (raw : Bytes) → to_bytes o ≡ some raw → parse raw ≡ as_read o
unfolding to_bytes
parse-to_bytes o raw h = assembled o (mss_bytes o.mss) (scale_bytes o.window_scale) raw refl refl h
