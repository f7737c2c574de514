-- ===== src/Ipv4/Fragment.antt =====
-- Splitting a datagram for a link (`fragment` of minitcp/net/ipv4.py). `none` is the ValueError.
pub mod Tiling
use Prim.Native.Nat.{bit_and, bit_or}
use mini_tcp.Base.{
  ℕ, zero, suc, ◌+◌, ◌-◌, ◌*◌, ◌/◌, Bool, not, Option, none, some, List, [], ◌∷◌, ltb, ◌==◌,
  if◌then◌else◌, Bytes, length, take, drop,
}
use mini_tcp.Ipv4.{Ipv4Packet, header_length, dont_fragment, min_mtu, flag_df, flag_mf}

unfoldable pub chunk : Ipv4Packet → ℕ → ℕ → Bytes
chunk p max_payload offset = take max_payload (drop offset p.payload)

-- The options are not copied.
unfoldable pub piece : Ipv4Packet → ℕ → ℕ → Ipv4Packet
unfolding chunk
piece p max_payload offset =
    let bytes = chunk p max_payload offset in
    let more = ltb (offset + length bytes) (length p.payload) in
    record {
      src = p.src;
      dst = p.dst;
      protocol = p.protocol;
      payload = bytes;
      ttl = p.ttl;
      identification = p.identification;
      flags = bit_or (bit_and p.flags flag_df) (if more then flag_mf else 0);
      fragment_offset = offset / 8;
      dscp = p.dscp;
      options = [];
    }

-- The loop, on fuel.
unfoldable pub pieces_from : ℕ → Ipv4Packet → ℕ → ℕ → List Ipv4Packet
unfolding piece
pieces_from zero p max_payload offset = []
pieces_from (suc fuel) p max_payload offset =
    let rest = pieces_from fuel p max_payload (offset + length (chunk p max_payload offset)) in
    if ltb offset (length p.payload) then piece p max_payload offset ∷ rest else []

-- Clearing the three low bits of the room that the MTU leaves.
unfoldable pub fragment : Ipv4Packet → ℕ → Option (List Ipv4Packet)
unfolding pieces_from
fragment p mtu =
    let max_payload = (mtu - header_length p) / 8 * 8 in
    if ltb mtu min_mtu
    then none
    else if not (ltb mtu (header_length p + length p.payload))
    then some (p ∷ [])
    else if dont_fragment p
    then none
    else if max_payload == 0
    then none
    else some (pieces_from (length p.payload) p max_payload 0)
