-- ===== src/Icmp.antt =====
-- ICMP messages and the echo body (minitcp/net/icmp.py). `none` is the ValueError, or the error of the
-- struct module for a number that does not fit its field.
pub mod RoundTrip
use mini_tcp.Base.{
  ℕ, ◌%◌, not, ◌||◌, Option, none, some, [], ◌∷◌, ◌++◌, ltb, ◌==◌, if◌then◌else◌, Bytes, length,
  take, drop, get_or,
}
use mini_tcp.Wire.{pack_8, pack_16, unpack_16}
use mini_tcp.Wire.Checksum.{checksum}

abbrev pub echo_reply : ℕ
echo_reply = 0

abbrev pub echo_request : ℕ
echo_request = 8

abbrev pub header_len : ℕ
header_len = 4

pub record IcmpMessage : Type 0 where
  pub kind : ℕ
  pub code : ℕ
  pub body : Bytes

unfoldable pub pack_header : IcmpMessage → ℕ → Bytes
pack_header m csum = pack_8 m.kind ++ (pack_8 m.code ++ (pack_16 csum ++ m.body))

unfoldable pub to_bytes : IcmpMessage → Option Bytes
unfolding pack_header
to_bytes m =
    let header = pack_header m 0 in
    if ltb 255 m.kind || ltb 255 m.code
    then none
    else some (take 2 header ++ (pack_16 (checksum header) ++ drop 4 header))

unfoldable pub parse : Bytes → Option IcmpMessage
parse bytes =
    if ltb (length bytes) header_len
    then none
    else if not (checksum bytes == 0)
    then none
    else some
        (record { kind = get_or bytes 0 0; code = get_or bytes 1 0; body = drop header_len bytes })

pub record EchoMessage : Type 0 where
  pub identifier : ℕ
  pub sequence : ℕ
  pub contents : Bytes

unfoldable pub to_icmp : EchoMessage → ℕ → IcmpMessage
to_icmp e kind = record {
  kind = kind;
  code = 0;
  body = pack_16 (e.identifier % 65536) ++ (pack_16 (e.sequence % 65536) ++ e.contents);
}

unfoldable pub from_icmp : IcmpMessage → Option EchoMessage
from_icmp m =
    if ltb (length m.body) 4
    then none
    else some (record {
      identifier = unpack_16 m.body;
      sequence = unpack_16 (drop 2 m.body);
      contents = drop 4 m.body;
    })
