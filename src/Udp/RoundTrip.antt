-- ===== src/Udp/RoundTrip.antt =====
-- Parsing a datagram that was printed (minitcp/net/udp.py).
use mini_tcp.Base.{
  ℕ, ◌+◌, ◌≤◌, ◌≡◌, refl, subst, true, some, [], ◌++◌, Bytes, length, take, drop, arith,
  length-append, take_front,
}
use mini_tcp.Wire.{unpack_16, join_16}
use mini_tcp.Wire.Checksum.{pseudo_checksum, transport_checksum}
use mini_tcp.Wire.Verify.{transport-verify, transport_checksum-pseudo_checksum}
use mini_tcp.Udp.{
  UdpSegment, header_len, proto_udp, length_field, pack_header, sent_checksum, checksum_field,
  with_field, to_bytes, parse,
}

-- What was printed is a header with its checksum, and it verifies.
record Printed (s : UdpSegment) (src dst raw : Bytes) : Type 0 where
  csum : ℕ
  fits : length s.payload + 8 ≤ 0xFFFF
  layout : raw ≡ pack_header s (length_field s) csum s.payload
  whole : pseudo_checksum src dst proto_udp raw ≡ 0

to_bytes-Printed :
    (s : UdpSegment) (src dst raw : Bytes)
    → length src ≡ 4
    → length dst ≡ 4
    → to_bytes s (some src) (some dst) true ≡ some raw
    → Printed s src dst raw
unfolding to_bytes with_field checksum_field pack_header length_field transport_checksum
to_bytes-Printed s src dst raw h k e =
    let size = length_field s in
    let csum = pseudo_checksum src dst proto_udp (pack_header s size 0 [] ++ s.payload) in
    let layout : raw ≡ pack_header s size (sent_checksum csum) s.payload = ground arith in
    record {
      csum = sent_checksum csum;
      fits = ground arith;
      layout = layout;
      whole = rw layout (
          transport-verify src dst proto_udp (take 6 (pack_header s size 0 [])) s.payload
            (sent_checksum csum) (omega arith) refl (unfold sent_checksum in ground arith));
    }

parse-pack :
    (s : UdpSegment) (csum : ℕ) (src dst padding : Bytes)
    → length s.payload + 8 ≤ 0xFFFF
    → pseudo_checksum src dst proto_udp (pack_header s (length_field s) csum s.payload) ≡ 0
    → parse (pack_header s (length_field s) csum s.payload ++ padding) src dst
      ≡ some (record s { checksum = csum })
unfolding parse
parse-pack s csum src dst padding fits whole =
    let message = pack_header s (length_field s) csum s.payload in
    let size : unpack_16 (drop 4 (message ++ padding)) ≡ length_field s =
      unfold pack_header in join_16 (length_field s) in
    let field : unpack_16 (drop 6 (message ++ padding)) ≡ csum =
      unfold pack_header in join_16 csum in
    let source : unpack_16 (message ++ padding) ≡ s.src_port =
      unfold pack_header in join_16 s.src_port in
    let target : unpack_16 (drop 2 (message ++ padding)) ≡ s.dst_port =
      unfold pack_header in join_16 s.dst_port in
    let long : length message ≡ length_field s = unfold pack_header length_field in omega arith in
    let computed =
      transport_checksum-pseudo_checksum src dst proto_udp message
        (unfold length_field in omega (arith, long, fits)) in
    rw
      (
        size,
        field,
        source,
        target,
        take_front (length_field s) message padding long,
        computed,
        whole,
      )
      (ground (arith, length-append message padding, long, header_of, data_of))
  where
    header_of : 8 ≤ length_field s
    header_of = unfold length_field in omega arith

    data_of : drop header_len (pack_header s (length_field s) csum s.payload) ≡ s.payload
    data_of = unfold pack_header in refl

-- A datagram that is printed with its checksum, between addresses of four bytes, is parsed as it was
-- with the checksum that was sent, whatever padding follows it.
pub udp_parse-to_bytes :
    (s : UdpSegment) (src dst raw padding : Bytes)
    → length src ≡ 4
    → length dst ≡ 4
    → to_bytes s (some src) (some dst) true ≡ some raw
    → parse (raw ++ padding) src dst ≡ some (record s { checksum = unpack_16 (drop 6 raw) })
udp_parse-to_bytes s src dst raw padding h k e =
    let p = to_bytes-Printed s src dst raw h k e in
    let message = pack_header s (length_field s) p.csum s.payload in
    let field : unpack_16 (drop 6 message) ≡ p.csum = unfold pack_header in join_16 p.csum in
    rw (p.layout, field)
      (parse-pack s p.csum src dst padding p.fits
        (subst (λ x. pseudo_checksum src dst proto_udp x ≡ 0) p.layout p.whole))
