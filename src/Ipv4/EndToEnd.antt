-- ===== src/Ipv4/EndToEnd.antt =====
-- From `fragment` to `Reassembler` (minitcp/net/ipv4.py).
use Prim.Native.Nat.{bit_and, bit_or}
use mini_tcp.Base.{
  ℕ, zero, suc, ◌+◌, ◌-◌, ◌*◌, ◌/◌, ◌%◌, ◌≤◌, ◌<◌, ◌≡◌, refl, sym, ◌∙◌, Bool, true, false, some,
  List, [], ◌∷◌, arith, ltb, if◌then◌else◌, Bytes, length, drop, Bool-cases, inl, inr, get_or, ◌⊎◌,
  subst,
}
use mini_tcp.Base.Slices.{slice-get_or, drop-IsPart, take-IsPart, IsPart}
use mini_tcp.Segment.{has_flag}
use mini_tcp.Time.{TimeOps}
use mini_tcp.Ipv4.{Ipv4Packet, header_length, dont_fragment, is_fragmented, flag_df, flag_mf}
use mini_tcp.Ipv4.Reassembly.{Key, Reassembler, add_all}
use mini_tcp.Ipv4.Rebuilt.{IsGenuine, AllGenuine, AllOriginal, reassembled-IsOriginal}
use mini_tcp.Ipv4.Fragment.{chunk, piece, pieces_from, fragment}
use mini_tcp.Ipv4.Fragment.Tiling.{length-chunk, fragment_cases}

-- A packet of the list.
abbrev pub IsAmong : Ipv4Packet → List Ipv4Packet → Type 0
IsAmong q [] = ⊥
IsAmong q (p ∷ ps) = (p ≡ q) ⊎ IsAmong q ps

-- Arrivals from a list of packets, each any number of times and in any order.
module _ {T : Type 0} where
  abbrev pub AllAmong : List Ipv4Packet → List (T × Ipv4Packet) → Type 0
  AllAmong ps [] = Unit {0}
  AllAmong ps ((now, q) ∷ arrivals) = IsAmong q ps × AllAmong ps arrivals

abbrev pub AllCarry : Bytes → List Ipv4Packet → Type 0
AllCarry payload [] = Unit {0}
AllCarry payload (q ∷ out) = (q.payload ≡ payload) × AllCarry payload out

module _ (p : Ipv4Packet) (size : ℕ) (words : size % 8 ≡ 0) (positive : 1 ≤ size)
    (allowed : dont_fragment p ≡ false) where
  abbrev stream : Key → ℕ → ℕ
  stream k i = get_or p.payload i 0

  abbrev extent : Key → ℕ
  extent k = length p.payload

  no_df : bit_and p.flags flag_df ≡ 0
  no_df = unfold dont_fragment in ground (arith, allowed)

  mf_kept :
      (more : Bool)
      → has_flag (bit_or (bit_and p.flags flag_df) (if more then flag_mf else 0)) flag_mf ≡ more
  mf_kept true = rw no_df refl
  mf_kept false = rw no_df refl

  piece-IsGenuine :
      (offset : ℕ)
      → offset % 8 ≡ 0
      → offset < length p.payload
      → IsGenuine stream extent (piece p size offset)
  unfolding piece chunk
  piece-IsGenuine offset aligned h =
      let whole = sym (slice-get_or p.payload) in
      let from_offset = drop-IsPart (λ i. get_or p.payload i 0) 0 offset p.payload whole in
      let there : offset / 8 * 8 ≡ offset = omega (arith, aligned) in
      record {
        part = (
          rw there (
              subst (λ o. IsPart (λ i. get_or p.payload i 0) o (chunk p size offset)) (omega arith)
                (unfold chunk in
                  take-IsPart (λ i. get_or p.payload i 0) (0 + offset) size (drop offset p.payload)
                    from_offset)),
          omega (arith, length-chunk p size positive offset, there),
        );
        ends = λ e.
            let last =
              sym (mf_kept (ltb (offset + length (chunk p size offset)) (length p.payload))) ∙ e in
            ground (arith, last, length-chunk p size positive offset, there);
      }

  piece-is_fragmented :
      (offset : ℕ)
      → offset % 8 ≡ 0
      → size < length p.payload
      → is_fragmented (piece p size offset) ≡ true
  unfolding piece chunk is_fragmented
  piece-is_fragmented offset aligned cut =
      let flag = mf_kept (ltb (offset + length (chunk p size offset)) (length p.payload)) in
      ground (arith, flag, length-chunk p size positive offset)

  -- Every piece stands at an aligned offset inside the payload; only past the end is the offset of
  -- the loop not aligned.
  among-pieces :
      (fuel offset : ℕ) (q : Ipv4Packet)
      → (offset % 8 ≡ 0) ⊎ (length p.payload ≤ offset)
      → IsAmong q (pieces_from fuel p size offset)
      → (o : ℕ) × ((o % 8 ≡ 0) × ((o < length p.payload) × (piece p size o ≡ q)))
  unfolding pieces_from
  among-pieces zero offset q aligned h = absurd h
  among-pieces (suc fuel) offset q aligned h = elim (Bool-cases (ltb offset (length p.payload))) [
    | inr done ↦
        let nothing : pieces_from (suc fuel) p size offset ≡ [] = rw done refl in
        absurd (subst (IsAmong q) nothing h)
    | inl more ↦
        let next = offset + length (chunk p size offset) in
        let some_piece : pieces_from (suc fuel) p size offset
            ≡ piece p size offset ∷ pieces_from fuel p size next =
          rw more refl in
        let there : offset < length p.payload = ground arith in
        elim (subst (IsAmong q) some_piece h) [
          | inl first ↦ (offset, (omega (arith, aligned), (there, first)))
          | inr later ↦
              among-pieces fuel next q (omega (arith, aligned, length-chunk p size positive offset))
                later
        ]
  ]

  among-IsGenuine :
      (q : Ipv4Packet)
      → size < length p.payload
      → IsAmong q (pieces_from (length p.payload) p size 0)
      → (is_fragmented q ≡ true) × IsGenuine stream extent q
  among-IsGenuine q cut h =
      let (o, (aligned, (there, same))) = among-pieces (length p.payload) 0 q (inl refl) h in
      (
        subst (λ x. is_fragmented x ≡ true) same (piece-is_fragmented o aligned cut),
        subst (IsGenuine stream extent) same (piece-IsGenuine o aligned there),
      )

  module _ {T : Type 0} ⦃ops : TimeOps T⦄ where
    among-AllGenuine :
        (arrivals : List (T × Ipv4Packet))
        → size < length p.payload
        → AllAmong (pieces_from (length p.payload) p size 0) arrivals
        → AllGenuine stream extent arrivals
    among-AllGenuine [] cut h = tt
    among-AllGenuine ((now, q) ∷ arrivals) cut (h, hs) =
        (among-IsGenuine q cut h, among-AllGenuine arrivals cut hs)

carry-original :
    (p : Ipv4Packet) (out : List Ipv4Packet)
    → AllOriginal (λ k i. get_or p.payload i 0) (λ k. length p.payload) out
    → AllCarry p.payload out
carry-original p [] h = tt
carry-original p (q ∷ out) (same, h) = (same ∙ slice-get_or p.payload, carry-original p out h)

module _ {T : Type 0} ⦃ops : TimeOps T⦄ where
  -- If a datagram is too large for the MTU, then whichever of its fragments arrive at a reassembler
  -- with no sets, in whatever order, at whatever times, each any number of times, every datagram that
  -- is returned carries the payload of the first.
  pub fragment-reassembled :
      (p : Ipv4Packet) (mtu : ℕ) (ps : List Ipv4Packet) (r : Reassembler T)
      (arrivals : List (T × Ipv4Packet))
      → mtu < header_length p + length p.payload
      → fragment p mtu ≡ some ps
      → r.sets ≡ []
      → AllAmong ps arrivals
      → AllCarry p.payload (add_all r arrivals).1
  fragment-reassembled p mtu ps r arrivals large e empty h = elim (fragment_cases p mtu ps e) [
    | inl (fits, _) ↦ absurd (omega arith)
    | inr (_, (allowed, (positive, cut))) ↦
        let size = (mtu - header_length p) / 8 * 8 in
        let within : size < length p.payload = omega (arith, large, positive) in
        carry-original p (add_all r arrivals).1 (
          reassembled-IsOriginal (λ k i. get_or p.payload i 0) (λ k. length p.payload) r arrivals
            empty
            (among-AllGenuine p size (omega arith) positive allowed arrivals within
              (subst (λ x. AllAmong x arrivals) cut h)))
  ]
