-- ===== src/Arp/Cache.antt =====
-- The ARP cache (`ARPCache` of minitcp/net/arp.py). The dictionary is an association list in insertion
-- order; a lock plays no part in it, and the time of a call is an argument.
pub mod Laws
use mini_tcp.Base.{
  ℕ, suc, ◌+◌, Bool, true, false, not, ◌&&◌, Option, none, some, List, [], ◌∷◌, ltb, if◌then◌else◌,
  Bytes, length, same_bytes, map,
}
use mini_tcp.Time.{TimeOps}

-- The hardware address and when it expires.
pub record Entry (T : Type 0) : Type 0 where
  pub mac : Bytes
  pub expires_at : T

pub record ArpCache (T : Type 0) : Type 0 where
  pub entries : List (Bytes × Entry T)
  pub timeout : T
  pub max_entries : ℕ

module _ {T : Type 0} where
  unfoldable pub find : Bytes → List (Bytes × Entry T) → Option (Entry T)
  find ip [] = none
  find ip ((k, entry) ∷ m) = let rest = find ip m in if same_bytes k ip then some entry else rest

  -- ip in entries
  unfoldable pub is_known : Bytes → List (Bytes × Entry T) → Bool
  is_known ip [] = false
  is_known ip ((k, entry) ∷ m) = let rest = is_known ip m in if same_bytes k ip then true else rest

  unfoldable pub remove : Bytes → List (Bytes × Entry T) → List (Bytes × Entry T)
  remove ip [] = []
  remove ip ((k, entry) ∷ m) =
      let rest = remove ip m in if same_bytes k ip then m else (k, entry) ∷ rest

  -- A new key goes last; an old one keeps its place.
  unfoldable pub put : Bytes → Entry T → List (Bytes × Entry T) → List (Bytes × Entry T)
  put ip new [] = (ip, new) ∷ []
  put ip new ((k, entry) ∷ m) =
      let rest = put ip new m in if same_bytes k ip then (k, new) ∷ m else (k, entry) ∷ rest

module _ {T : Type 0} ⦃ops : TimeOps T⦄ where
  -- stamp >= expires_at
  abbrev pub is_expired : T → Entry T → Bool
  is_expired now entry = ops.leq entry.expires_at now

  -- `min` by expiry: the first of the earliest.
  unfoldable pub earliest : Bytes → T → List (Bytes × Entry T) → Bytes
  earliest best when [] = best
  earliest best when ((k, entry) ∷ m) =
      if ops.leq when entry.expires_at then earliest best when m else earliest k entry.expires_at m

  unfoldable pub evict : List (Bytes × Entry T) → Option (List (Bytes × Entry T))
  unfolding earliest remove
  evict [] = none
  evict ((k, entry) ∷ m) = some (remove (earliest k entry.expires_at m) ((k, entry) ∷ m))

  -- The cache after the call, and the address if it is known and has not expired.
  unfoldable pub lookup : ArpCache T → Bytes → T → ArpCache T × Option Bytes
  unfolding find remove
  lookup c ip now = elim (find ip c.entries) [
    | none ↦ (c, none)
    | some entry ↦
        if is_expired now entry
        then (record c { entries = remove ip c.entries }, none)
        else (c, some entry.mac)
  ]

  -- Room is made for a new key in a full table; `none` is the ValueError of `min` where a full table
  -- is empty.
  unfoldable pub with_room : ArpCache T → Bytes → Option (List (Bytes × Entry T))
  unfolding is_known evict
  with_room c ip =
      let evicted = evict c.entries in
      if not (is_known ip c.entries) && not (ltb (length c.entries) c.max_entries)
      then evicted
      else some c.entries

  unfoldable pub store : ArpCache T → Bytes → Bytes → T → Option (ArpCache T)
  unfolding with_room put
  store c ip mac now = elim (with_room c ip) [
    | none ↦ none
    | some entries ↦
        let new : Entry T = record { mac = mac; expires_at = ops.plus now c.timeout } in
        some (record c { entries = put ip new entries })
  ]

  -- What is kept, and how many are not.
  unfoldable pub fresh : T → List (Bytes × Entry T) → List (Bytes × Entry T) × ℕ
  fresh now [] = ([], 0)
  fresh now ((k, entry) ∷ m) =
      let (kept, gone) = fresh now m in
      if is_expired now entry then (kept, suc gone) else ((k, entry) ∷ kept, gone)

  unfoldable pub expire : ArpCache T → T → ArpCache T × ℕ
  unfolding fresh
  expire c now = let (kept, gone) = fresh now c.entries in (record c { entries = kept }, gone)

module _ {T : Type 0} where
  unfoldable pub clear : ArpCache T → ArpCache T
  clear c = record c { entries = [] }

  unfoldable pub snapshot : ArpCache T → List (Bytes × Bytes)
  snapshot c = map (λ e. (e.0, e.1.mac)) c.entries
