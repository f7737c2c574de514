-- ===== src/Arp/RoundTrip.antt =====
-- Parsing a packet that was printed (minitcp/net/arp.py).
use mini_tcp.Base.{
  ◌+◌, ◌≡◌, refl, ap, ◌∙◌, some, ◌++◌, Bytes, length, arith, get_or, take_front, drop_front,
  length-append, append_assoc,
}
use mini_tcp.Wire.{join_16}
use mini_tcp.Arp.{ArpPacket, lengths_match, pack, to_bytes, decode, parse}

decode-pack :
    (p : ArpPacket) (padding : Bytes)
    → length p.sender_mac ≡ p.hardware_len
    → length p.sender_ip ≡ p.protocol_len
    → length p.target_mac ≡ p.hardware_len
    → length p.target_ip ≡ p.protocol_len
    → decode (pack p ++ padding) ≡ p
unfolding decode pack
decode-pack p padding a b c d =
    let from_target_ip = p.target_ip ++ padding in
    let from_target = p.target_mac ++ from_target_ip in
    let from_sender_ip = p.sender_ip ++ from_target in
    let nested : (p.sender_mac ++ (p.sender_ip ++ (p.target_mac ++ p.target_ip))) ++ padding
        ≡ p.sender_mac ++ from_sender_ip =
      append_assoc p.sender_mac (p.sender_ip ++ (p.target_mac ++ p.target_ip)) padding
      ∙ ap (◌++◌ p.sender_mac) (
          append_assoc p.sender_ip (p.target_mac ++ p.target_ip) padding
          ∙ ap (◌++◌ p.sender_ip) (append_assoc p.target_mac p.target_ip padding)) in
    rw
      (
        nested,
        drop_front p.hardware_len p.sender_mac from_sender_ip a,
        drop_front p.protocol_len p.sender_ip from_target b,
        drop_front p.hardware_len p.target_mac from_target_ip c,
        take_front p.hardware_len p.sender_mac from_sender_ip a,
        take_front p.protocol_len p.sender_ip from_target b,
        take_front p.hardware_len p.target_mac from_target_ip c,
        take_front p.protocol_len p.target_ip padding d,
        join_16 p.operation,
        join_16 p.hardware_type,
        join_16 p.protocol_type,
      )
      refl

length-pack :
    (p : ArpPacket)
    → length (pack p)
      ≡ 8
        + (length p.sender_mac + (length p.sender_ip + (length p.target_mac + length p.target_ip)))
unfolding pack
length-pack p = omega (
  arith,
  length-append p.sender_mac (p.sender_ip ++ (p.target_mac ++ p.target_ip)),
  length-append p.sender_ip (p.target_mac ++ p.target_ip),
  length-append p.target_mac p.target_ip,
)

-- A packet with Ethernet and IPv4 addresses that can be printed is parsed as it was, whatever padding
-- follows it.
pub arp_parse-to_bytes :
    (p : ArpPacket) (raw padding : Bytes)
    → p.hardware_len ≡ 6
    → p.protocol_len ≡ 4
    → to_bytes p ≡ some raw
    → parse (raw ++ padding) ≡ some p
unfolding to_bytes lengths_match parse
arp_parse-to_bytes p raw padding h k e =
    let layout : raw ≡ pack p = ground arith in
    let a : length p.sender_mac ≡ p.hardware_len = ground arith in
    let b : length p.sender_ip ≡ p.protocol_len = ground arith in
    let c : length p.target_mac ≡ p.hardware_len = ground arith in
    let d : length p.target_ip ≡ p.protocol_len = ground arith in
    let hardware : get_or (pack p ++ padding) 4 0 ≡ p.hardware_len = unfold pack in refl in
    let protocol : get_or (pack p ++ padding) 5 0 ≡ p.protocol_len = unfold pack in refl in
    rw (layout, hardware, protocol, decode-pack p padding a b c d)
      (ground (arith, length-append (pack p) padding, length-pack p))
