-- ===== src/Segment/RoundTrip.antt =====
-- Parsing a segment that was printed (minitcp/net/tcp/segment.py).
use Prim.Native.Nat.{bit_or}
use mini_tcp.Base.{
  ℕ, ◌+◌, ◌-◌, ◌*◌, ◌/◌, ◌%◌, ◌≤◌, ◌≡◌, refl, sym, ◌∙◌, Bool, true, false, Option, none, some, ◌++◌,
  Bytes, length, take, drop, get_or, arith, inl, length-append, take-append, drop-append_length,
  drop-drop, ap, subst,
}
use mini_tcp.Base.Bits.{or_fields}
use mini_tcp.Seqno.{seq_space}
use mini_tcp.Wire.{join_16, join_32, pack_16, unpack_16}
use mini_tcp.Wire.Checksum.{pseudo_checksum, transport_checksum}
use mini_tcp.Wire.Verify.{transport-verify, transport_checksum-pseudo_checksum}
use mini_tcp.Segment.{TcpSegment, TcpOptions}
use mini_tcp.Segment.Options
use mini_tcp.Segment.OptionsRoundTrip.{as_read, parse-to_bytes}
use mini_tcp.Segment.Codec.{
  header_len, proto_tcp, offset_byte, pack_header, checksum_field, with_field, with_options,
  to_bytes, is_corrupt, decode, parse,
}

offset_byte_lem : (o f : ℕ) → offset_byte o f ≡ o * 16 + f / 256 % 2
unfolding offset_byte
offset_byte_lem o f = or_fields 4 o (f / 256 % 2) (omega arith)

offset_byte-low : (o f : ℕ) → offset_byte o f % 2 ≡ f / 256 % 2
offset_byte-low o f = omega (arith, offset_byte_lem o f)

offset_byte-high : (o f : ℕ) → offset_byte o f / 16 ≡ o
offset_byte-high o f = omega (arith, offset_byte_lem o f)

flags_lem : (f : ℕ) → bit_or (f / 256 % 2 * 256) (f % 256) ≡ f % 512
flags_lem f = omega (arith, or_fields 8 (f / 256 % 2) (f % 256) (omega arith))

-- What the peer reads: numbers as their fields hold them.
pub as_received : TcpSegment → ℕ → TcpSegment
as_received s csum = record s {
  seq = s.seq % seq_space;
  ack = s.ack % seq_space;
  flags = s.flags % 512;
  options = as_read s.options;
  checksum = csum;
}

-- The options take a multiple of four bytes, at most 40.
size_of_options :
    (o : TcpOptions) (raw : Bytes)
    → Options.to_bytes o ≡ some raw
    → (length raw % 4 ≡ 0) × (length raw ≤ 40)
unfolding Options.to_bytes
size_of_options o raw h = assembled (Options.mss_bytes o.mss) (Options.scale_bytes o.window_scale) h
  where
    finished :
        (body : Bytes) → Options.finish body ≡ some raw → (length raw % 4 ≡ 0) × (length raw ≤ 40)
    finished body e =
        unfold Options.finish Options.padding in
        ground (arith, length-append body (Options.padding ((4 - length body % 4) % 4)))

    assembled :
        (x y : Option Bytes)
        → Options.assemble o x y ≡ some raw
        → (length raw % 4 ≡ 0) × (length raw ≤ 40)
    assembled none y e = unfold Options.assemble in absurd (cc)
    assembled (some m) none e = unfold Options.assemble in absurd (cc)
    assembled (some m) (some n) e = finished _ (unfold Options.assemble in e)

unshift : (n : ℕ) → n + 20 - header_len ≡ n
unshift n = omega arith

-- The parts of a printed header.
module _ (s : TcpSegment) (data_offset csum : ℕ) (rest : Bytes) where
  drop-pack_header : (n : ℕ) → drop (n + 20) (pack_header s data_offset csum rest) ≡ drop n rest
  unfolding pack_header
  drop-pack_header n =
      ap (λ k. drop k (pack_header s data_offset csum rest)) {x = n + 20} {y = 20 + n} (omega arith)
      ∙ sym (drop-drop n 20 (pack_header s data_offset csum rest))

  length-pack_header : length (pack_header s data_offset csum rest) ≡ length rest + 20
  unfolding pack_header
  length-pack_header = omega arith

  offset_of_header : get_or (pack_header s data_offset csum rest) 12 0 / 16 ≡ data_offset
  unfolding pack_header
  offset_of_header = offset_byte-high data_offset s.flags

  csum_of_header : unpack_16 (drop 16 (pack_header s data_offset csum rest)) ≡ csum
  unfolding pack_header
  csum_of_header = join_16 csum

decode-pack :
    (s : TcpSegment) (csum : ℕ) (options : Bytes)
    → Options.to_bytes s.options ≡ some options
    → decode
        (pack_header s ((header_len + length options) / 4) csum (options ++ s.payload))
        (length options + 20)
      ≡ as_received s csum
unfolding decode pack_header as_received
decode-pack s csum options h =
    rw
      (
        join_16 s.src_port,
        join_16 s.dst_port,
        join_32 (s.seq % seq_space),
        join_32 (s.ack % seq_space),
        offset_byte-low ((header_len + length options) / 4) s.flags,
        flags_lem s.flags,
        join_16 s.window,
        join_16 csum,
        join_16 s.urgent_pointer,
        unshift (length options),
        take-append options s.payload,
        drop-pack_header s ((header_len + length options) / 4) csum (options ++ s.payload)
            (length options),
        drop-append_length options s.payload,
        parse-to_bytes s.options options h,
      )
      refl

not_corrupt :
    (bytes src dst : Bytes) (csum : ℕ)
    → length bytes ≤ 65535
    → pseudo_checksum src dst proto_tcp bytes ≡ 0
    → is_corrupt bytes csum (some src) (some dst) ≡ false
unfolding is_corrupt
not_corrupt bytes src dst csum h k =
    rw (transport_checksum-pseudo_checksum src dst proto_tcp bytes h, k) (ground arith)

-- A header with options that were printed is decoded.
parse-pack :
    (s : TcpSegment) (csum : ℕ) (options : Bytes) (src dst : Option Bytes) (check : Bool)
    → Options.to_bytes s.options ≡ some options
    → let raw = pack_header s ((header_len + length options) / 4) csum (options ++ s.payload) in
      is_corrupt raw csum src dst ≡ false → parse raw src dst check ≡ some (as_received s csum)
unfolding parse
parse-pack s csum options src dst check h whole =
    let offset = (header_len + length options) / 4 in
    let rest = options ++ s.payload in
    let sizes = size_of_options s.options options h in
    let four : offset * 4 ≡ length options + 20 = omega (arith, sizes.0) in
    rw
      (
        offset_of_header s offset csum rest,
        csum_of_header s offset csum rest,
        length-pack_header s offset csum rest,
        length-append options s.payload,
        four,
        decode-pack s csum options h,
      )
      (ground (arith, whole))

-- What was printed is a header with its checksum, and it verifies.
pub record Printed (s : TcpSegment) (src dst raw : Bytes) : Type 0 where
  pub options : Bytes
  pub csum : ℕ
  pub packed : Options.to_bytes s.options ≡ some options
  pub layout : raw ≡ pack_header s ((header_len + length options) / 4) csum (options ++ s.payload)
  pub fits : length raw ≤ 65535
  pub whole : pseudo_checksum src dst proto_tcp raw ≡ 0

with_options-Printed :
    (s : TcpSegment) (x : Option Bytes) (src dst raw : Bytes)
    → length src ≡ 4
    → length dst ≡ 4
    → Options.to_bytes s.options ≡ x
    → with_options s x (some src) (some dst) true ≡ some raw
    → Printed s src dst raw
unfolding with_options with_field checksum_field pack_header transport_checksum
with_options-Printed s none src dst raw h k packed e = absurd (cc)
with_options-Printed s (some options) src dst raw h k packed e =
    let offset = (header_len + length options) / 4 in
    let header = pack_header s offset 0 options in
    let csum = pseudo_checksum src dst proto_tcp (header ++ s.payload) in
    let layout : raw ≡ pack_header s offset csum (options ++ s.payload) = ground arith in
    let short : length (header ++ s.payload) ≤ 65535 = ground arith in
    record {
      options = options;
      csum = csum;
      packed = packed;
      layout = layout;
      fits = rw layout (
          omega (
            arith,
            length-pack_header s offset csum (options ++ s.payload),
            length-pack_header s offset 0 (options ++ s.payload),
            short,
          ));
      whole = rw layout (
          transport-verify src dst proto_tcp (take 16 header)
            (pack_16 s.urgent_pointer ++ (options ++ s.payload)) csum (omega arith) refl
            (inl refl));
    }

-- A segment that is printed with its checksum is parsed as it was, but for what the format does not
-- carry: sequence numbers are read modulo 2 ^ 32, flags modulo 2 ^ 9, options as their own round
-- trip says, and the checksum is the one that was sent. Both addresses take four bytes.
pub segment_parse-to_bytes :
    (s : TcpSegment) (src dst raw : Bytes)
    → length src ≡ 4
    → length dst ≡ 4
    → to_bytes s (some src) (some dst) true ≡ some raw
    → parse raw (some src) (some dst) true ≡ some (as_received s (unpack_16 (drop 16 raw)))
unfolding to_bytes
segment_parse-to_bytes s src dst raw h k e =
    let p =
      with_options-Printed s (Options.to_bytes s.options) src dst raw h k refl (ground arith) in
    let offset = (header_len + length p.options) / 4 in
    let message = pack_header s offset p.csum (p.options ++ s.payload) in
    let field = csum_of_header s offset p.csum (p.options ++ s.payload) in
    let sound : is_corrupt message p.csum (some src) (some dst) ≡ false =
      not_corrupt message src dst p.csum (subst (λ x. length x ≤ 65535) p.layout p.fits)
        (subst (λ x. pseudo_checksum src dst proto_tcp x ≡ 0) p.layout p.whole) in
    rw (p.layout, field) (parse-pack s p.csum p.options (some src) (some dst) true p.packed sound)
