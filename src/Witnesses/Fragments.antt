-- ===== src/Witnesses/Fragments.antt =====
-- A datagram of 56 bytes that is cut for an MTU of 68, and put together again.
use mini_tcp.Base.{
  ◌<◌, compare_cases, ℕ, ◌+◌, ◌*◌, ◌≡◌, refl, true, some, List, [], ◌∷◌, length, arith, inl, inr,
}
use mini_tcp.Base.Slices.{slice}
use mini_tcp.Witnesses.{milliseconds}
use mini_tcp.Witnesses.Packets.{here, there}
use mini_tcp.Ipv4
use mini_tcp.Ipv4.{Ipv4Packet, flag_mf}
use mini_tcp.Ipv4.Fragment.{fragment, pieces_from}
use mini_tcp.Ipv4.Fragment.Tiling.{joined, AllFit, fragment-joined, pieces_from_fuel}
use mini_tcp.Reorder.Entries.{put}
use mini_tcp.Ipv4.Reassembly.{Reassembler, FragmentSet, add_all, try_complete, rebuild}
use mini_tcp.Ipv4.Complete.{IsCovered, try_complete_covered}
use mini_tcp.Ipv4.Reassembly
use mini_tcp.Ipv4.Rebuilt.{IsGenuine, AllOriginal, reassembled-IsOriginal}
use mini_tcp.Ipv4.EndToEnd.{AllCarry, fragment-reassembled}

-- A packet of a payload that counts up from its offset.
abbrev packet : ℕ → ℕ → ℕ → Ipv4Packet
packet offset size flags = record {
  src = here;
  dst = there;
  protocol = 17;
  payload = slice (λ i. i) (offset * 8) size;
  ttl = 64;
  identification = 7;
  flags = flags;
  fragment_offset = offset;
  dscp = 0;
  options = [];
}

abbrev whole : Ipv4Packet
whole = packet 0 56 0

abbrev front : Ipv4Packet
front = packet 0 48 flag_mf

abbrev back : Ipv4Packet
back = packet 6 8 0

cut : fragment whole 68 ≡ some (front ∷ back ∷ [])
unfolding fragment Ipv4.dont_fragment Ipv4.header_length
cut = refl

fragment-joined_example :
    (joined (front ∷ back ∷ []) ≡ whole.payload) × AllFit 68 (front ∷ back ∷ [])
fragment-joined_example = fragment-joined whole 68 (front ∷ back ∷ []) cut

pieces_from_fuel_example : pieces_from (2 + 5) (packet 0 2 0) 1 0 ≡ pieces_from 2 (packet 0 2 0) 1 0
pieces_from_fuel_example = pieces_from_fuel (packet 0 2 0) 1 (omega arith) 2 5 0 (omega arith)

abbrev idle : Reassembler ℕ
idle = record { sets = []; timeout = 30000; max_pending = 64; reassembled = 0; dropped = 0 }

-- The end arrives first, and a second time when the datagram is already whole.
abbrev arrivals : List (ℕ × Ipv4Packet)
arrivals = (1, back) ∷ (2, front) ∷ (3, back) ∷ []

fragment-reassembled_example : AllCarry whole.payload (add_all idle arrivals).1
fragment-reassembled_example =
    fragment-reassembled whole 68 (front ∷ back ∷ []) idle arrivals
      (unfold Ipv4.header_length Ipv4.ihl in omega arith) cut refl
      (inr (inl refl), (inl refl, (inr (inl refl), tt)))

-- One datagram is returned.
returned_once : length (add_all idle arrivals).1 ≡ 1
unfolding add_all Reassembly.add put
returned_once = refl

reassembled-IsOriginal_example : AllOriginal (λ k i. i) (λ k. 56) (add_all idle arrivals).1
reassembled-IsOriginal_example =
    reassembled-IsOriginal (λ k i. i) (λ k. 56) idle arrivals refl
      (
        (fragmented_back, back_IsGenuine),
        ((fragmented_front, front_IsGenuine), ((fragmented_back, back_IsGenuine), tt)),
      )
  where
    fragmented_back : Ipv4.is_fragmented back ≡ true
    fragmented_back = unfold Ipv4.is_fragmented in refl

    fragmented_front : Ipv4.is_fragmented front ≡ true
    fragmented_front = unfold Ipv4.is_fragmented in refl

    back_IsGenuine : IsGenuine (λ k i. i) (λ k. 56) back
    back_IsGenuine = record { part = (refl, omega arith); ends = λ e. refl }

    front_IsGenuine : IsGenuine (λ k i. i) (λ k. 56) front
    front_IsGenuine = record { part = (refl, omega arith); ends = λ e. absurd (cc) }

-- Two pieces that overlap, the later one first.
abbrev collected : FragmentSet ℕ
collected = record {
  first_seen = 1;
  total_length = some 10;
  header = some front;
  pieces = (8, 8 ∷ 9 ∷ []) ∷ (0, slice (λ i. i) 0 9) ∷ [];
}

try_complete_covered_example : try_complete collected ≡ some (rebuild front (slice (λ i. i) 0 10))
try_complete_covered_example =
    try_complete_covered (λ i. i) 10 collected front refl refl (omega arith)
      ((refl, omega arith), ((refl, omega arith), tt)) covered
  where
    covered : (i : ℕ) → i < 10 → IsCovered i collected.pieces
    covered i h = elim (compare_cases i 8) [
      | inl less ↦ inr (inl (omega arith, omega arith))
      | inr rest ↦ inl (omega (arith, rest), omega arith)
    ]
