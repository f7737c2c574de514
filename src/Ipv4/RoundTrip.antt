-- ===== src/Ipv4/RoundTrip.antt =====
-- Parsing a datagram that was printed (minitcp/net/ipv4.py).
use Prim.Native.Nat.{bit_and, bit_or}
use mini_tcp.Base.{
  ℕ, ◌+◌, ◌*◌, ◌/◌, ◌%◌, ◌≤◌, ◌<◌, ◌≡◌, refl, sym, ap, ◌∙◌, true, some, [], ◌++◌, Bytes, length,
  take, drop, arith, get_or, take_front, drop_front, drop-drop, length-append, append_assoc,
  append-nil,
}
use mini_tcp.Base.Bits.{or_fields, and_low, and_high}
use mini_tcp.Wire.{unpack_16, join_16}
use mini_tcp.Wire.Checksum.{checksum}
use mini_tcp.Wire.Verify.{checksum-verify, zero_of_verify}
use mini_tcp.Ipv4.{
  Ipv4Packet, header_len, flag_mask, frag_offset_mask, ihl, header_length, total_length,
  pack_header, is_printable, to_bytes, decode, parse,
}

-- The three flag bits.
flag_bits : (f : ℕ) → bit_and f flag_mask ≡ f / 8192 % 8 * 8192
flag_bits f =
    let whole : f / 8192 * 8192 + f % 8192 ≡ f = omega arith in
    let split : f / 8192 / 8 * 8 + f / 8192 % 8 ≡ f / 8192 = omega arith in
    let low = and_low 3 (f / 8192 / 8) (f / 8192 % 8) (omega arith) in
    let high = and_high 13 (f / 8192) (f % 8192) 7 (omega arith) in
    sym (ap (λ x. bit_and x flag_mask) whole)
    ∙ high
    ∙ ap (λ x. x * 8192) (sym (ap (λ x. bit_and x 7) split) ∙ low)

flags_kept :
    (f o : ℕ) → o < 8192 → bit_and (bit_or (bit_and f flag_mask) o) flag_mask ≡ bit_and f flag_mask
flags_kept f o h =
    let joined : bit_or (bit_and f flag_mask) o ≡ f / 8192 % 8 * 8192 + o =
      ap (λ x. bit_or x o) (flag_bits f) ∙ or_fields 13 (f / 8192 % 8) o h in
    omega (
      arith,
      ap (λ x. bit_and x flag_mask) joined,
      flag_bits f,
      flag_bits (f / 8192 % 8 * 8192 + o),
    )

offset_kept : (f o : ℕ) → o < 8192 → bit_and (bit_or (bit_and f flag_mask) o) frag_offset_mask ≡ o
offset_kept f o h =
    let joined : bit_or (bit_and f flag_mask) o ≡ f / 8192 % 8 * 8192 + o =
      ap (λ x. bit_or x o) (flag_bits f) ∙ or_fields 13 (f / 8192 % 8) o h in
    ap (λ x. bit_and x frag_offset_mask) joined ∙ and_low 13 (f / 8192 % 8) o h

version_and_ihl : (n : ℕ) → n < 16 → bit_or (4 * 16) n ≡ 64 + n
version_and_ihl n h = or_fields 4 4 n h

-- A datagram within the limits of `to_bytes`, its header with checksum `csum`, and what follows it.
module _ (p : Ipv4Packet) (csum : ℕ) (padding : Bytes) (four : length p.src ≡ 4)
    (four' : length p.dst ≡ 4) (words : length p.options % 4 ≡ 0) (short : length p.options ≤ 40)
    (near : p.fragment_offset < 8192) where
  header : Bytes
  header = pack_header p csum []

  message : Bytes
  message = (header ++ p.payload) ++ padding

  length-header : length header ≡ header_length p
  unfolding header pack_header header_length ihl
  length-header = omega (
    arith,
    length-append p.src (p.dst ++ (p.options ++ [])),
    length-append p.dst (p.options ++ []),
    length-append p.options [],
  )

  from_addresses : drop 12 message ≡ p.src ++ (p.dst ++ (p.options ++ (p.payload ++ padding)))
  unfolding message header pack_header
  from_addresses =
      append_assoc (p.src ++ (p.dst ++ (p.options ++ []))) p.payload padding
      ∙ append_assoc p.src (p.dst ++ (p.options ++ [])) (p.payload ++ padding)
      ∙ ap (◌++◌ p.src) (
          append_assoc p.dst (p.options ++ []) (p.payload ++ padding)
          ∙ ap (◌++◌ p.dst) (append_assoc p.options [] (p.payload ++ padding)))

  from_dst : drop 16 message ≡ p.dst ++ (p.options ++ (p.payload ++ padding))
  from_dst = sym (drop-drop 4 12 message) ∙ ap (drop 4) from_addresses ∙ drop_front 4 p.src _ four

  options_of_header : drop header_len header ≡ p.options
  unfolding header pack_header
  options_of_header =
      sym (drop-drop 8 12 header)
      ∙ sym (drop-drop 4 4 (p.src ++ (p.dst ++ (p.options ++ []))))
      ∙ ap (drop 4) (drop_front 4 p.src _ four)
      ∙ drop_front 4 p.dst _ four'
      ∙ append-nil p.options

  take_header : take (header_length p) message ≡ header
  unfolding message
  take_header =
      ap (take (header_length p)) (append_assoc header p.payload padding)
      ∙ take_front (header_length p) header (p.payload ++ padding) length-header

  take_datagram : take (total_length p) message ≡ header ++ p.payload
  unfolding message total_length
  take_datagram =
      take_front (total_length p) (header ++ p.payload) padding
        (omega (arith, length-append header p.payload, length-header))

  first_byte : get_or message 0 0 ≡ 64 + ihl p
  unfolding message header pack_header ihl
  first_byte = version_and_ihl (ihl p) (omega arith)

  flags_and_offset :
      unpack_16 (drop 6 message) ≡ bit_or (bit_and p.flags flag_mask) p.fragment_offset
  unfolding message header pack_header
  flags_and_offset = join_16 (bit_or (bit_and p.flags flag_mask) p.fragment_offset)

  identification_field : unpack_16 (drop 4 message) ≡ p.identification % 65536
  unfolding message header pack_header
  identification_field = join_16 (p.identification % 65536)

  size_field : unpack_16 (drop 2 message) ≡ total_length p
  unfolding message header pack_header
  size_field = join_16 (total_length p)

  decode_lem :
      decode message (header_length p) (total_length p)
      ≡ record p { identification = p.identification % 65536; flags = bit_and p.flags flag_mask }
  unfolding decode
  decode_lem =
      rw
        (
          from_addresses,
          from_dst,
          take_front 4 p.src (p.dst ++ (p.options ++ (p.payload ++ padding))) four,
          take_front 4 p.dst (p.options ++ (p.payload ++ padding)) four',
          take_datagram,
          take_header,
          drop_front (header_length p) header p.payload length-header,
          options_of_header,
          flags_and_offset,
          flags_kept p.flags p.fragment_offset near,
          offset_kept p.flags p.fragment_offset near,
          identification_field,
        )
        (unfold message header pack_header in refl)

  -- Every test of the parser passes on a datagram whose header checks out.
  parse-message :
      checksum header ≡ 0
      → total_length p ≤ 0xFFFF
      → parse message ≡ some (decode message (header_length p) (total_length p))
  unfolding parse
  parse-message valid bounded =
      let size : get_or message 0 0 % 16 * 4 ≡ header_length p =
        unfold header_length ihl in omega (arith, first_byte, header_small) in
      let version : get_or message 0 0 / 16 ≡ 4 = omega (arith, first_byte, header_small) in
      let words_of : 5 ≤ get_or message 0 0 % 16 = omega (arith, first_byte, header_small) in
      rw (size, size_field, version, take_header)
        (ground (arith, valid, words_of, header_fits, total_of, message_of))
    where
      header_small : (5 ≤ ihl p) × (ihl p < 16)
      header_small = unfold ihl in (omega arith, omega arith)

      header_fits : header_length p ≤ total_length p
      header_fits = unfold total_length in omega arith

      total_of : 20 ≤ header_length p
      total_of = unfold header_length ihl in omega arith

      message_of : total_length p ≤ length message
      message_of =
          unfold message total_length in
          omega (
            arith,
            length-header,
            length-append header p.payload,
            length-append (header ++ p.payload) padding,
          )

limits :
    (p : Ipv4Packet)
    → is_printable p ≡ true
    → (length p.src ≡ 4)
      × ((length p.dst ≡ 4)
          × ((length p.options % 4 ≡ 0)
              × ((length p.options ≤ 40)
                  × ((p.fragment_offset < 8192) × (total_length p ≤ 0xFFFF)))))
unfolding is_printable
limits p h =
    (ground arith, (ground arith, (ground arith, (ground arith, (ground arith, ground arith)))))

-- What `to_bytes` returns is the header, whose checksum is stored, and the payload.
to_bytes_lem :
    (p : Ipv4Packet) (raw : Bytes)
    → to_bytes p ≡ some raw
    → (is_printable p ≡ true)
      × ((raw ≡ pack_header p (checksum (pack_header p 0 [])) [] ++ p.payload)
          × (checksum (pack_header p (checksum (pack_header p 0 [])) []) ≡ 0))
unfolding to_bytes pack_header
to_bytes_lem p raw e =
    let front = take 10 (pack_header p 0 []) in
    let back = drop 12 (pack_header p 0 []) in
    let valid = zero_of_verify _ (checksum-verify front back refl) in ground (arith, valid)

-- A datagram that is printed is parsed as it was, whatever padding follows it: of the identification
-- the low 16 bits are kept, and of the flags the three bits of the field.
pub ipv4_parse-to_bytes :
    (p : Ipv4Packet) (raw padding : Bytes)
    → to_bytes p ≡ some raw
    → parse (raw ++ padding)
      ≡ some (record p {
        identification = p.identification % 65536;
        flags = bit_and p.flags flag_mask;
      })
unfolding header message pack_header
ipv4_parse-to_bytes p raw padding e =
    let (printable, (layout, valid)) = to_bytes_lem p raw e in
    let (four, (four', (words, (short, (near, bounded))))) = limits p printable in
    let csum = checksum (pack_header p 0 []) in
    rw layout (
      parse-message p csum padding four four' words short near valid bounded
      ∙ ap some (decode_lem p csum padding four four' words short near))
