-- ===== src/Ethernet/RoundTrip.antt =====
-- Parsing a frame that was printed (minitcp/net/ethernet.py).
use mini_tcp.Base.{
  ℕ, ◌+◌, ◌-◌, ◌≡◌, refl, sym, ap, ◌∙◌, Bool, true, false, some, [], ◌++◌, ltb, if◌then◌else◌,
  Bytes, length, drop, arith, replicate, take_front, drop_front, drop-drop, length-append,
  append_assoc, append-nil, Bool-cases, inl, inr,
}
use mini_tcp.Wire.{pack_16, join_16}
use mini_tcp.Wire.Reader
use mini_tcp.Wire.Writer
use mini_tcp.Ethernet.{EthernetFrame, header_len, min_frame_len, padded, to_bytes, parse}

-- What stands in front of the payload.
abbrev front : EthernetFrame → Bytes
front f = f.dst ++ (f.src ++ pack_16 f.ethertype)

parse-front :
    (f : EthernetFrame) (rest : Bytes)
    → length f.dst ≡ 6
    → length f.src ≡ 6
    → parse (f.dst ++ (f.src ++ (pack_16 f.ethertype ++ rest))) ≡ some (record f { payload = rest })
unfolding parse Reader.raw Reader.make Reader.u16 Reader.rest Reader.advance
parse-front f rest h k =
    let bytes = f.dst ++ (f.src ++ (pack_16 f.ethertype ++ rest)) in
    let past_dst = drop_front 6 f.dst (f.src ++ (pack_16 f.ethertype ++ rest)) h in
    let past_src : drop 12 bytes ≡ pack_16 f.ethertype ++ rest =
      sym (drop-drop 6 6 bytes)
      ∙ ap (drop 6) past_dst
      ∙ drop_front 6 f.src (pack_16 f.ethertype ++ rest) k in
    let past_type : drop 14 bytes ≡ rest = sym (drop-drop 2 12 bytes) ∙ ap (drop 2) past_src in
    let size : length bytes ≡ length rest + 14 = omega (
      arith,
      length-append f.dst (f.src ++ (pack_16 f.ethertype ++ rest)),
      length-append f.src (pack_16 f.ethertype ++ rest),
    ) in
    ground (
      arith,
      size,
      past_dst,
      past_src,
      past_type,
      take_front 6 f.dst (f.src ++ (pack_16 f.ethertype ++ rest)) h,
      take_front 6 f.src (pack_16 f.ethertype ++ rest) k,
      join_16 f.ethertype,
    )

-- How many zero bytes are put behind a payload.
pub padding_len : EthernetFrame → Bool → ℕ
padding_len f pad = if pad then min_frame_len - (header_len + length f.payload) else 0

padded_lem :
    (f : EthernetFrame) (pad : Bool)
    → length f.dst ≡ 6
    → length f.src ≡ 6
    → padded (f.dst ++ (f.src ++ (pack_16 f.ethertype ++ f.payload))) pad
      ≡ f.dst ++ (f.src ++ (pack_16 f.ethertype ++ (f.payload ++ replicate (padding_len f pad) 0)))
unfolding padded padding_len
padded_lem f false h k = rw (append-nil f.payload) refl
padded_lem f true h k =
    let body = pack_16 f.ethertype ++ f.payload in
    let frame = f.dst ++ (f.src ++ body) in
    let size : length frame ≡ 14 + length f.payload =
      omega (arith, length-append f.dst (f.src ++ body), length-append f.src body) in
    elim (Bool-cases (ltb (length frame) 60)) [
      | inl short ↦
          rw (short, size)
            (append_assoc f.dst (f.src ++ body) (replicate (60 - (14 + length f.payload)) 0)
              ∙ ap (◌++◌ f.dst)
                  (append_assoc f.src body (replicate (60 - (14 + length f.payload)) 0)))
      | inr long ↦
          let none_left : 60 - (14 + length f.payload) ≡ 0 = ground (arith, size) in
          rw (long, none_left, append-nil f.payload) refl
    ]

-- A frame between addresses of six bytes is parsed as it was, but for the zero bytes that were put
-- behind a short payload.
pub ethernet_parse-to_bytes :
    (f : EthernetFrame) (pad : Bool) (raw : Bytes)
    → length f.dst ≡ 6
    → length f.src ≡ 6
    → to_bytes f pad ≡ some raw
    → parse raw ≡ some (record f { payload = f.payload ++ replicate (padding_len f pad) 0 })
unfolding to_bytes Writer.u16 Writer.checked Writer.raw Writer.make Writer.bytes Writer.join
ethernet_parse-to_bytes f pad raw h k e =
    let layout : raw ≡ padded (f.dst ++ (f.src ++ (pack_16 f.ethertype ++ (f.payload ++ [])))) pad =
      ground arith in
    rw (layout, append-nil f.payload, padded_lem f pad h k) (parse-front f _ h k)
