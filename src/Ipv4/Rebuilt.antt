-- ===== src/Ipv4/Rebuilt.antt =====
-- What the reassembler returns (minitcp/net/ipv4.py).
use mini_tcp.Base.{
  ℕ, ◌+◌, ◌*◌, ◌≤◌, ◌≡◌, refl, sym, subst, true, false, Option, none, some, List, [], ◌∷◌, arith,
  ltb, length, replicate, same_bytes→≡, Bool-cases, inl, inr, Option-cases,
}
use mini_tcp.Base.Slices.{slice}
use mini_tcp.Reorder.Entries.{Each, put-Each}
use mini_tcp.Segment.{has_flag}
use mini_tcp.Time.{TimeOps}
use mini_tcp.Ipv4.{Ipv4Packet, is_fragmented, flag_mf}
use mini_tcp.Ipv4.Reassembly.{
  Key, FragmentSet, Reassembler, key_of, same_key, sorted, reach, place_all, rebuild, try_complete,
  find, remove, store, new_set, fill, collect, sweep, expire, settle, note, add, add_all,
}
use mini_tcp.Ipv4.Pieces.{IsPiece, sorted-Each, place_all_complete}

same_key→≡ : (a b : Key) → same_key a b ≡ true → a ≡ b
unfolding same_key
same_key→≡ a b h = ground (arith, same_bytes→≡ a.src b.src, same_bytes→≡ a.dst b.dst)

-- The payloads that the senders meant: for each key a stream, and how much of it is the payload.
module _ (S : Key → ℕ → ℕ) (size : Key → ℕ) where
  -- A fragment carries what stands at its offset, and the last one ends at the end.
  pub record IsGenuine (p : Ipv4Packet) : Type 0 where
    pub part : IsPiece (S (key_of p)) (size (key_of p)) (p.fragment_offset * 8) p.payload
    pub ends :
        has_flag p.flags flag_mf ≡ false
        → p.fragment_offset * 8 + length p.payload ≡ size (key_of p)

  -- The datagram whose key it has.
  abbrev pub IsOriginal : Ipv4Packet → Type 0
  IsOriginal p = p.payload ≡ slice (S (key_of p)) 0 (size (key_of p))

  abbrev pub AllOriginal : List Ipv4Packet → Type 0
  AllOriginal [] = Unit {0}
  AllOriginal (q ∷ out) = IsOriginal q × AllOriginal out

  note-AllOriginal :
      (out : Option Ipv4Packet) (rest : List Ipv4Packet)
      → ((q : Ipv4Packet) → out ≡ some q → IsOriginal q)
      → AllOriginal rest
      → AllOriginal (note out rest)
  note-AllOriginal none rest right h = h
  note-AllOriginal (some q) rest right h = (right q refl, h)

  module _ {T : Type 0} where
    record IsSound (key : Key) (entry : FragmentSet T) : Type 0 where
      genuine : Each (IsPiece (S key) (size key)) entry.pieces
      total : (n : ℕ) → entry.total_length ≡ some n → n ≡ size key
      head : (p : Ipv4Packet) → entry.header ≡ some p → key_of p ≡ key

    abbrev AllSound : List (Key × FragmentSet T) → Type 0
    AllSound [] = Unit {0}
    AllSound ((key, entry) ∷ sets) = IsSound key entry × AllSound sets

    try_complete-IsOriginal :
        (key : Key) (entry : FragmentSet T) (q : Ipv4Packet)
        → IsSound key entry
        → try_complete entry ≡ some q
        → IsOriginal q
    unfolding try_complete key_of
    try_complete-IsOriginal key entry q sound e = elim (Option-cases entry.total_length) [
      | inl missing ↦ absurd (ground arith)
      | inr (total, ends) ↦ elim (Option-cases (reach 0 (sorted entry.pieces))) [
        | inl hole ↦ absurd (ground arith)
        | inr (last, reached) ↦ elim (Option-cases entry.header) [
          | inl headless ↦ absurd (ground arith)
          | inr (p, first) ↦
              let end : total ≡ size key = sound.total total ends in
              let whole = place_all total (replicate {A = ℕ} total 0) (sorted entry.pieces) in
              let far : total ≤ last = ground arith in
              let made : rebuild p whole ≡ q = ground arith in
              let payload : whole ≡ slice (S key) 0 (size key) =
                subst
                  (λ n.
                    place_all n (replicate {A = ℕ} n 0) (sorted entry.pieces)
                    ≡ slice (S key) 0 (size key))
                  (sym end)
                  (place_all_complete (S key) (size key) (sorted entry.pieces) last
                    (sorted-Each (IsPiece (S key) (size key)) entry.pieces sound.genuine) reached
                    (omega arith)) in
              subst IsOriginal made (
                unfold rebuild in
                subst (λ k. whole ≡ slice (S k) 0 (size k)) (sym (sound.head p first)) payload)
        ]
      ]
    ]

    new_set-IsSound : (key : Key) (now : T) → IsSound key (new_set now)
    unfolding new_set
    new_set-IsSound key now = record {
      genuine = tt;
      total = λ n e. absurd cc;
      head = λ p e. absurd cc;
    }

    fill-IsSound :
        (entry : FragmentSet T) (p : Ipv4Packet)
        → IsGenuine p
        → IsSound (key_of p) entry
        → IsSound (key_of p) (fill entry p)
    unfolding fill
    fill-IsSound entry p g sound = record {
      genuine =
          put-Each (IsPiece (S (key_of p)) (size (key_of p))) (p.fragment_offset * 8) p.payload
            entry.pieces g.part sound.genuine;
      total = λ n e. ground (arith, g.ends, sound.total n);
      head = λ q e. elim (Option-cases entry.header) [
        | inl missing ↦ ground arith
        | inr (first, there) ↦ ground (arith, sound.head first there)
      ];
    }

    find-IsSound :
        (key : Key) (sets : List (Key × FragmentSet T)) (entry : FragmentSet T)
        → AllSound sets
        → find key sets ≡ some entry
        → IsSound key entry
    unfolding find
    find-IsSound key [] entry h e = absurd cc
    find-IsSound key ((k, first) ∷ sets) entry (s, h) e = elim (Bool-cases (same_key k key)) [
      | inl same ↦
          let here : first ≡ entry = ground arith in
          subst (λ x. IsSound key x) here (subst (λ x. IsSound x first) (same_key→≡ k key same) s)
      | inr other ↦ find-IsSound key sets entry h (ground arith)
    ]

    remove-AllSound :
        (key : Key) (sets : List (Key × FragmentSet T)) → AllSound sets → AllSound (remove key sets)
    unfolding remove
    remove-AllSound key [] h = tt
    remove-AllSound key ((k, entry) ∷ sets) (s, h) = ground (arith, remove-AllSound key sets h)

    store-AllSound :
        (key : Key) (new : FragmentSet T) (sets : List (Key × FragmentSet T))
        → IsSound key new
        → AllSound sets
        → AllSound (store key new sets)
    unfolding store
    store-AllSound key new [] n h = (n, tt)
    store-AllSound key new ((k, entry) ∷ sets) n (s, h) = elim (Bool-cases (same_key k key)) [
      | inl same ↦ rw same (subst (λ x. IsSound x new) (sym (same_key→≡ k key same)) n, h)
      | inr other ↦ rw other (s, store-AllSound key new sets n h)
    ]

    -- A state of the table and what was returned with it.
    abbrev IsRight : Reassembler T × Option Ipv4Packet → Type 0
    IsRight (r, out) = AllSound r.sets × ((q : Ipv4Packet) → out ≡ some q → IsOriginal q)

    settle-IsRight :
        (r : Reassembler T) (key : Key) (entry : FragmentSet T) (out : Option Ipv4Packet)
        → IsSound key entry
        → ((q : Ipv4Packet) → out ≡ some q → IsOriginal q)
        → AllSound r.sets
        → IsRight (settle r key entry out)
    unfolding settle
    settle-IsRight r key entry none s right h = (store-AllSound key entry r.sets s h, right)
    settle-IsRight r key entry (some whole) s right h = (remove-AllSound key r.sets h, right)

    collect-IsRight :
        (r : Reassembler T) (key : Key) (entry : FragmentSet T) (p : Ipv4Packet)
        → IsSound key (fill entry p)
        → AllSound r.sets
        → IsRight (collect r key entry p)
    unfolding collect
    collect-IsRight r key entry p s h =
        settle-IsRight r key (fill entry p) (try_complete (fill entry p)) s
          (λ q. try_complete-IsOriginal key (fill entry p) q s) h

  module _ {T : Type 0} ⦃ops : TimeOps T⦄ where
    sweep-AllSound :
        (timeout now : T) (sets : List (Key × FragmentSet T))
        → AllSound sets
        → AllSound (sweep timeout now sets).0
    unfolding sweep
    sweep-AllSound timeout now [] h = tt
    sweep-AllSound timeout now ((key, entry) ∷ sets) (s, h) =
        ground (arith, sweep-AllSound timeout now sets h)

    expire-AllSound : (r : Reassembler T) (now : T) → AllSound r.sets → AllSound (expire r now).sets
    unfolding expire
    expire-AllSound r now h = sweep-AllSound r.timeout now r.sets h

    add-IsRight :
        (r : Reassembler T) (now : T) (p : Ipv4Packet)
        → is_fragmented p ≡ true
        → IsGenuine p
        → AllSound r.sets
        → IsRight (add r now p)
    unfolding add
    add-IsRight r now p f g h =
        let swept = expire r now in
        let kept = expire-AllSound r now h in
        let key = key_of p in
        elim (Option-cases (find key swept.sets)) [
          | inr (entry, known) ↦
              rw (f, known)
                (collect-IsRight swept key entry p
                  (fill-IsSound entry p g (find-IsSound key swept.sets entry kept known)) kept)
          | inl unknown ↦ elim (Bool-cases (ltb (length swept.sets) swept.max_pending)) [
            | inl room ↦
                rw (f, unknown, room)
                  (collect-IsRight swept key (new_set now) p
                    (fill-IsSound (new_set now) p g (new_set-IsSound key now)) kept)
            | inr full ↦ rw (f, unknown, full) (kept, λ q e. absurd (cc))
          ]
        ]

    -- Arrivals that are all fragments of the datagrams that were meant.
    abbrev pub AllGenuine : List (T × Ipv4Packet) → Type 0
    AllGenuine [] = Unit {0}
    AllGenuine ((now, p) ∷ arrivals) =
        ((is_fragmented p ≡ true) × IsGenuine p) × AllGenuine arrivals

    add_all-AllSound :
        (r : Reassembler T) (arrivals : List (T × Ipv4Packet))
        → AllGenuine arrivals
        → AllSound r.sets
        → AllOriginal (add_all r arrivals).1
    unfolding add_all
    add_all-AllSound r [] g h = tt
    add_all-AllSound r ((now, p) ∷ arrivals) ((f, g), gs) h =
        let (kept, right) = add-IsRight r now p f g h in
        let rest = add_all-AllSound (add r now p).0 arrivals gs kept in
        note-AllOriginal (add r now p).1 _ right rest

    -- Whatever fragments arrive, in any order, with repetitions, overlaps and gaps, of however many
    -- datagrams at once and at whatever times: if each one carries what stands at its offset in the
    -- payload of its key, then every datagram that a reassembler with no sets returns carries the whole
    -- payload of its key.
    pub reassembled-IsOriginal :
        (r : Reassembler T) (arrivals : List (T × Ipv4Packet))
        → r.sets ≡ []
        → AllGenuine arrivals
        → AllOriginal (add_all r arrivals).1
    reassembled-IsOriginal r arrivals e g =
        add_all-AllSound r arrivals g (subst AllSound (sym e) tt)
