-- ===== src/Icmp/RoundTrip.antt =====
-- Parsing a message that was printed (minitcp/net/icmp.py).
use mini_tcp.Base.{ℕ, ◌%◌, ◌≡◌, refl, some, [], ◌∷◌, ◌++◌, Bytes, arith}
use mini_tcp.Wire.{pack_16, join_16}
use mini_tcp.Wire.Checksum.{checksum}
use mini_tcp.Wire.Verify.{checksum-verify, zero_of_verify}
use mini_tcp.Icmp.{IcmpMessage, EchoMessage, pack_header, to_bytes, parse, to_icmp, from_icmp}

-- A message that can be printed is parsed as it was.
pub icmp_parse-to_bytes :
    (m : IcmpMessage) (raw : Bytes) → to_bytes m ≡ some raw → parse raw ≡ some m
unfolding to_bytes pack_header parse
icmp_parse-to_bytes m raw e =
    let front = m.kind ∷ m.code ∷ [] in
    let field = checksum (front ++ (0 ∷ 0 ∷ m.body)) in
    let sound = zero_of_verify _ (checksum-verify front m.body refl) in
    let layout : raw ≡ front ++ (pack_16 field ++ m.body) = ground arith in
    rw layout (ground (arith, sound))

-- The numbers of an echo message are read modulo 2 ^ 16.
pub from_icmp-to_icmp :
    (e : EchoMessage) (kind : ℕ)
    → from_icmp (to_icmp e kind)
      ≡ some (record e { identifier = e.identifier % 65536; sequence = e.sequence % 65536 })
unfolding from_icmp to_icmp
from_icmp-to_icmp e kind =
    rw (join_16 (e.identifier % 65536), join_16 (e.sequence % 65536)) (ground arith)
