-- ===== src/Arp.antt =====
-- ARP packets (minitcp/net/arp.py, `ARPPacket`). `none` is the ValueError, or the error of the struct
-- module for a number that does not fit its field.
pub mod RoundTrip
pub mod Cache
use mini_tcp.Base.{
  ℕ, ◌+◌, ◌*◌, Bool, not, ◌&&◌, ◌||◌, Option, none, some, [], ◌∷◌, ◌++◌, ltb, ◌==◌, if◌then◌else◌,
  Bytes, length, take, drop, get_or,
}
use mini_tcp.Wire.{pack_8, pack_16, unpack_16}

abbrev pub hardware_ethernet : ℕ
hardware_ethernet = 1

abbrev pub arp_request : ℕ
arp_request = 1

abbrev pub arp_reply : ℕ
arp_reply = 2

abbrev pub packet_len : ℕ
packet_len = 28

pub record ArpPacket : Type 0 where
  pub operation : ℕ
  pub sender_mac : Bytes
  pub sender_ip : Bytes
  pub target_mac : Bytes
  pub target_ip : Bytes
  pub hardware_type : ℕ
  pub protocol_type : ℕ
  pub hardware_len : ℕ
  pub protocol_len : ℕ

unfoldable pub lengths_match : ArpPacket → Bool
lengths_match p =
    (length p.sender_mac == p.hardware_len)
    && ((length p.target_mac == p.hardware_len)
        && ((length p.sender_ip == p.protocol_len) && (length p.target_ip == p.protocol_len)))

unfoldable pub fields_fit : ArpPacket → Bool
fields_fit p =
    ltb p.hardware_type 65536
    && (ltb p.protocol_type 65536
        && (ltb p.hardware_len 256 && (ltb p.protocol_len 256 && ltb p.operation 65536)))

unfoldable pub pack : ArpPacket → Bytes
pack p =
    pack_16 p.hardware_type
    ++ (pack_16 p.protocol_type
        ++ (pack_8 p.hardware_len
            ++ (pack_8 p.protocol_len
                ++ (pack_16 p.operation
                    ++ (p.sender_mac ++ (p.sender_ip ++ (p.target_mac ++ p.target_ip)))))))

unfoldable pub to_bytes : ArpPacket → Option Bytes
unfolding pack
to_bytes p =
    if not (lengths_match p) then none else if not (fields_fit p) then none else some (pack p)

-- The fields of bytes whose lengths are checked.
unfoldable pub decode : Bytes → ArpPacket
decode bytes =
    let hardware_len = get_or bytes 4 0 in
    let protocol_len = get_or bytes 5 0 in
    let rest = drop 8 bytes in
    let rest' = drop hardware_len rest in
    let rest'' = drop protocol_len rest' in
    let rest''' = drop hardware_len rest'' in
    record {
      operation = unpack_16 (drop 6 bytes);
      sender_mac = take hardware_len rest;
      sender_ip = take protocol_len rest';
      target_mac = take hardware_len rest'';
      target_ip = take protocol_len rest''';
      hardware_type = unpack_16 bytes;
      protocol_type = unpack_16 (drop 2 bytes);
      hardware_len = hardware_len;
      protocol_len = protocol_len;
    }

unfoldable pub parse : Bytes → Option ArpPacket
unfolding decode
parse bytes =
    let hardware_len = get_or bytes 4 0 in
    let protocol_len = get_or bytes 5 0 in
    if ltb (length bytes) packet_len
    then none
    else if not (hardware_len == 6) || not (protocol_len == 4)
    then none
    else if ltb (length bytes) (8 + 2 * (hardware_len + protocol_len))
    then none
    else some (decode bytes)

unfoldable pub is_request : ArpPacket → Bool
is_request p = p.operation == arp_request

unfoldable pub is_reply : ArpPacket → Bool
is_reply p = p.operation == arp_reply
