-- ===== src/Ipv4/Fragment/Tiling.antt =====
-- The fragments of a datagram (`fragment` of minitcp/net/ipv4.py).
use mini_tcp.Base.{
  ℕ, zero, suc, ◌+◌, ◌-◌, ◌*◌, ◌/◌, ◌≤◌, ◌<◌, ◌≡◌, refl, sym, ap, ◌∙◌, false, some, List, [], ◌∷◌,
  ◌++◌, arith, ltb, Bytes, length, take, drop, min, length-take, length-drop, Bool-cases, inl, inr,
  take-append-rest, drop-drop, drop_all, append-nil, ◌⊎◌,
}
use native.Mathlib.Nat.{suc-add}
use mini_tcp.Ipv4.{Ipv4Packet, ihl, header_length, dont_fragment}
use mini_tcp.Ipv4.Fragment.{chunk, piece, pieces_from, fragment}

-- The payloads in a row.
abbrev pub joined : List Ipv4Packet → Bytes
joined [] = []
joined (q ∷ ps) = q.payload ++ joined ps

-- Every fragment with its header takes no more than `mtu` bytes.
abbrev pub AllFit : ℕ → List Ipv4Packet → Type 0
AllFit mtu [] = Unit {0}
AllFit mtu (q ∷ ps) = (header_length q + length q.payload ≤ mtu) × AllFit mtu ps

module _ (p : Ipv4Packet) (size : ℕ) (positive : 1 ≤ size) where
  pub length-chunk :
      (offset : ℕ) → length (chunk p size offset) ≡ min size (length p.payload - offset)
  unfolding chunk
  length-chunk offset =
      omega (arith, length-take size (drop offset p.payload), length-drop offset p.payload)

  drop-chunk :
      (offset : ℕ)
      → chunk p size offset ++ drop (offset + length (chunk p size offset)) p.payload
        ≡ drop offset p.payload
  unfolding chunk
  drop-chunk offset =
      let rest = drop offset p.payload in
      ap (◌++◌ (take size rest)) (sym (drop-drop (length (take size rest)) offset p.payload))
      ∙ take-append-rest size rest

  -- Fuel for one step per byte left reaches the end.
  pieces_from-joined :
      (fuel offset : ℕ)
      → length p.payload ≤ offset + fuel
      → joined (pieces_from fuel p size offset) ≡ drop offset p.payload
  unfolding pieces_from piece
  pieces_from-joined zero offset h = sym (drop_all offset p.payload (omega arith))
  pieces_from-joined (suc fuel) offset h = elim (Bool-cases (ltb offset (length p.payload))) [
    | inl more ↦
        let rest =
          pieces_from-joined fuel (offset + length (chunk p size offset))
            (ground (arith, length-chunk offset)) in
        rw more (ap (◌++◌ (chunk p size offset)) rest ∙ drop-chunk offset)
    | inr done ↦ rw done (sym (drop_all offset p.payload (ground arith)))
  ]

  -- If a piece carries a byte or more, then fuel for one step per byte that is left is enough: more of
  -- it changes nothing in the fragments.
  pub pieces_from_fuel :
      (fuel spare offset : ℕ)
      → length p.payload ≤ offset + fuel
      → pieces_from (fuel + spare) p size offset ≡ pieces_from fuel p size offset
  unfolding pieces_from
  pieces_from_fuel zero zero offset h = refl
  pieces_from_fuel zero (suc spare) offset h = ground arith
  pieces_from_fuel (suc fuel) spare offset h = elim (Bool-cases (ltb offset (length p.payload))) [
    | inl more ↦
        let rest =
          pieces_from_fuel fuel spare (offset + length (chunk p size offset))
            (ground (arith, length-chunk offset)) in
        rw (suc-add, more) (ap (◌∷◌ (piece p size offset)) rest)
    | inr done ↦ rw (suc-add, done) refl
  ]

  pieces_from-AllFit :
      (mtu fuel offset : ℕ) → 20 + size ≤ mtu → AllFit mtu (pieces_from fuel p size offset)
  unfolding pieces_from piece
  pieces_from-AllFit mtu zero offset h = tt
  pieces_from-AllFit mtu (suc fuel) offset h = elim (Bool-cases (ltb offset (length p.payload))) [
    | inl more ↦ rw more (
      unfold header_length ihl in omega (arith, length-chunk offset),
      pieces_from-AllFit mtu fuel (offset + length (chunk p size offset)) h,
    )
    | inr done ↦ rw done tt
  ]

-- What a list of fragments is: the datagram itself where it fits, or the pieces of the loop.
pub fragment_cases :
    (p : Ipv4Packet) (mtu : ℕ) (ps : List Ipv4Packet)
    → fragment p mtu ≡ some ps
    → let max_payload = (mtu - header_length p) / 8 * 8 in
      ((header_length p + length p.payload ≤ mtu) × (ps ≡ p ∷ []))
      ⊎ ((mtu < header_length p + length p.payload)
          × ((dont_fragment p ≡ false)
              × ((1 ≤ max_payload) × (ps ≡ pieces_from (length p.payload) p max_payload 0))))
unfolding fragment
fragment_cases p mtu ps e = ground arith

-- Fragmenting either fails, or gives datagrams that carry the payload, in order and once, and of which
-- each fits the MTU with its header.
pub fragment-joined :
    (p : Ipv4Packet) (mtu : ℕ) (ps : List Ipv4Packet)
    → fragment p mtu ≡ some ps
    → (joined ps ≡ p.payload) × AllFit mtu ps
fragment-joined p mtu ps e = elim (fragment_cases p mtu ps e) [
  | inl (fits, whole) ↦ rw whole (append-nil p.payload, (fits, tt))
  | inr (large, (allowed, (positive, cut))) ↦
      let size = (mtu - header_length p) / 8 * 8 in
      rw cut (
        pieces_from-joined p size positive (length p.payload) 0 (omega arith),
        pieces_from-AllFit p size positive mtu (length p.payload) 0
            (unfold header_length ihl in omega (arith, positive)),
      )
]
