-- ===== src/Arp/Cache/Laws.antt =====
-- How the ARP cache answers and how large it gets (minitcp/net/arp.py).
use mini_tcp.Base.{
  suc, ◌≤◌, ◌≡◌, refl, sym, ap, ◌∙◌, true, false, Option, none, some, List, [], ◌∷◌, ltb,
  if◌then◌else◌, Bytes, length, same_bytes, same_bytes_refl, same_bytes→≡, arith, Bool-cases,
  Option-cases, inl, inr, ◌⊎◌, subst,
}
use mini_tcp.Time.{TimeOps}
use mini_tcp.Arp.Cache.{
  Entry, ArpCache, find, is_known, remove, put, earliest, evict, lookup, with_room, store,
}

module _ {T : Type 0} where
  find-put :
      (ip : Bytes) (new : Entry T) (m : List (Bytes × Entry T)) → find ip (put ip new m) ≡ some new
  unfolding find put
  find-put ip new [] = rw (same_bytes_refl ip) refl
  find-put ip new ((k, entry) ∷ m) = elim (Bool-cases (same_bytes k ip)) [
    | inl same ↦ rw (same, same) refl
    | inr other ↦ rw (other, other) (find-put ip new m)
  ]

  find-put_other :
      (ip ip' : Bytes) (new : Entry T) (m : List (Bytes × Entry T))
      → same_bytes ip ip' ≡ false
      → find ip' (put ip new m) ≡ find ip' m
  unfolding find put
  find-put_other ip ip' new [] h = rw h refl
  find-put_other ip ip' new ((k, entry) ∷ m) h = elim (Bool-cases (same_bytes k ip)) [
    | inl same ↦
        let k_other : same_bytes k ip' ≡ false =
          ap (λ x. same_bytes x ip') (same_bytes→≡ k ip same) ∙ h in
        rw (same, k_other) refl
    | inr other ↦ rw (other) (
        ap (λ (x : Option (Entry T)). if same_bytes k ip' then some entry else x)
          (find-put_other ip ip' new m h))
  ]

  length-put_new :
      (ip : Bytes) (new : Entry T) (m : List (Bytes × Entry T))
      → length (put ip new m) ≤ suc (length m)
  unfolding put
  length-put_new ip new [] = omega arith
  length-put_new ip new ((k, entry) ∷ m) = ground (arith, length-put_new ip new m)

  length-put_known :
      (ip : Bytes) (new : Entry T) (m : List (Bytes × Entry T))
      → is_known ip m ≡ true
      → length (put ip new m) ≡ length m
  unfolding put is_known find
  length-put_known ip new [] h = absurd cc
  length-put_known ip new ((k, entry) ∷ m) h = ground (arith, length-put_known ip new m)

  length-remove :
      (ip : Bytes) (m : List (Bytes × Entry T))
      → is_known ip m ≡ true
      → suc (length (remove ip m)) ≡ length m
  unfolding remove is_known find
  length-remove ip [] h = absurd cc
  length-remove ip ((k, entry) ∷ m) h = ground (arith, length-remove ip m)

  is_known_first :
      (k : Bytes) (entry : Entry T) (m : List (Bytes × Entry T))
      → is_known k ((k, entry) ∷ m) ≡ true
  unfolding is_known
  is_known_first k entry m = rw (same_bytes_refl k) refl

  is_known_later :
      (ip k : Bytes) (entry : Entry T) (m : List (Bytes × Entry T))
      → is_known ip m ≡ true
      → is_known ip ((k, entry) ∷ m) ≡ true
  unfolding is_known
  is_known_later ip k entry m h = ground (arith, h)

module _ {T : Type 0} ⦃ops : TimeOps T⦄ where
  earliest_cases :
      (best : Bytes) (when : T) (m : List (Bytes × Entry T))
      → (earliest best when m ≡ best) ⊎ (is_known (earliest best when m) m ≡ true)
  unfolding earliest
  earliest_cases best when [] = inl refl
  earliest_cases best when ((k, entry) ∷ m) = elim (Bool-cases (ops.leq when entry.expires_at)) [
    | inl sooner ↦
        let step : earliest best when ((k, entry) ∷ m) ≡ earliest best when m = rw sooner refl in
        elim (earliest_cases best when m) [
          | inl first ↦ inl (step ∙ first)
          | inr later ↦ inr (
              subst (λ x. is_known x ((k, entry) ∷ m) ≡ true) (sym step)
                (is_known_later _ k entry m later))
        ]
    | inr further ↦
        let step : earliest best when ((k, entry) ∷ m) ≡ earliest k entry.expires_at m =
          rw further refl in
        elim (earliest_cases k entry.expires_at m) [
          | inl first ↦ inr (
              subst (λ x. is_known x ((k, entry) ∷ m) ≡ true) (sym (step ∙ first))
                (is_known_first k entry m))
          | inr later ↦ inr (
              subst (λ x. is_known x ((k, entry) ∷ m) ≡ true) (sym step)
                (is_known_later _ k entry m later))
        ]
  ]

  -- The entry to evict is in the table.
  earliest-is_known :
      (best : Bytes) (first : Entry T) (when : T) (m : List (Bytes × Entry T))
      → is_known (earliest best when m) ((best, first) ∷ m) ≡ true
  earliest-is_known best first when m = elim (earliest_cases best when m) [
    | inl same ↦
        subst (λ x. is_known x ((best, first) ∷ m) ≡ true) (sym same) (is_known_first best first m)
    | inr later ↦ is_known_later _ best first m later
  ]

  evict_smaller : (m m' : List (Bytes × Entry T)) → evict m ≡ some m' → suc (length m') ≡ length m
  unfolding evict
  evict_smaller [] m' e = absurd cc
  evict_smaller ((k, entry) ∷ m) m' e =
      let out = earliest k entry.expires_at m in
      let rest : remove out ((k, entry) ∷ m) ≡ m' = ground arith in
      ap (λ x. suc (length x)) (sym rest)
      ∙ length-remove out ((k, entry) ∷ m) (earliest-is_known k entry entry.expires_at m)

  -- The entry that is stored at a time.
  abbrev stored : ArpCache T → Bytes → T → Entry T
  stored c mac now = record { mac = mac; expires_at = ops.plus now c.timeout }

  store_cases :
      (c c' : ArpCache T) (ip mac : Bytes) (now : T)
      → store c ip mac now ≡ some c'
      → (m : List (Bytes × Entry T)) × ((with_room c ip ≡ some m)
          × (record c { entries = put ip (stored c mac now) m } ≡ c'))
  unfolding store
  store_cases c c' ip mac now e = elim (Option-cases (with_room c ip)) [
    | inl full ↦ absurd (ground arith)
    | inr (m, room) ↦ (m, (room, ground arith))
  ]

  put-with_room :
      (c : ArpCache T) (ip : Bytes) (new : Entry T) (m : List (Bytes × Entry T))
      → length c.entries ≤ c.max_entries
      → with_room c ip ≡ some m
      → length (put ip new m) ≤ c.max_entries
  unfolding with_room
  put-with_room c ip new m h room = elim (Bool-cases (is_known ip c.entries)) [
    | inl known ↦
        let same : c.entries ≡ m = ground arith in
        subst (λ x. length (put ip new x) ≤ c.max_entries) same
          (omega (arith, length-put_known ip new c.entries known))
    | inr unknown ↦ elim (Bool-cases (ltb (length c.entries) c.max_entries)) [
      | inl free ↦
          let same : c.entries ≡ m = ground arith in
          subst (λ x. length (put ip new x) ≤ c.max_entries) same
            (ground (arith, length-put_new ip new c.entries))
      | inr full ↦
          let evicted : evict c.entries ≡ some m = ground arith in
          omega (arith, evict_smaller c.entries m evicted, length-put_new ip new m)
    ]
  ]

  -- Storing never makes a table that is within its limit larger than the limit.
  pub store-bounded :
      (c c' : ArpCache T) (ip mac : Bytes) (now : T)
      → length c.entries ≤ c.max_entries
      → store c ip mac now ≡ some c'
      → length c'.entries ≤ c'.max_entries
  store-bounded c c' ip mac now h e =
      let (m, (room, made)) = store_cases c c' ip mac now e in
      subst (λ x. length x.entries ≤ x.max_entries) made
        (put-with_room c ip (stored c mac now) m h room)

  -- Directly after an address was stored, it is found until its time is up, and from then on no more.
  pub lookup-store :
      (c c' : ArpCache T) (ip mac : Bytes) (now later : T)
      → store c ip mac now ≡ some c'
      → (lookup c' ip later).1 ≡ (if ops.leq (ops.plus now c.timeout) later then none else some mac)
  unfolding lookup
  lookup-store c c' ip mac now later e =
      let (m, (room, made)) = store_cases c c' ip mac now e in
      subst
        (λ x.
          (lookup x ip later).1
          ≡ (if ops.leq (ops.plus now c.timeout) later then none else some mac))
        made (rw (lookup, find-put ip (stored c mac now) m) (ground arith))
