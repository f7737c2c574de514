-- ===== src/Link/Carried.antt =====
-- What `VirtualWire.transmit` (minitcp/link/simulated.py) does with a frame.
use Prim.Native.Nat.{bit_xor}
use mini_tcp.Base.{
  suc, ◌<◌, ◌^◌, length, either, ℕ, zero, ◌+◌, ◌*◌, ◌≤◌, ◌≡◌, ◌⊎◌, refl, sym, ap, ◌∙◌, Bool, true,
  false, not, ◌&&◌, List, [], ◌∷◌, ◌++◌, ◌==◌, arith, if◌then◌else◌, Bytes, is_empty, replicate,
  append-nil, Bool-cases, inl, inr, ap₂, ==_iff,
}
use mini_tcp.Time.{TimeOps}
use mini_tcp.Link.{
  VirtualWire, Draws, peers_of, carry_to, carry, show_frame, transmit, xor_at, flip_one_bit,
  delay_of, happens,
}
use mini_tcp.Link.Copies.{count, count-append, frames_for, queue_of, carry_to_now, carry_to_later}

-- How often an endpoint is attached to the wire, if it hears the sender.
abbrev pub listens_to : {T : Type 0} → VirtualWire T → ℕ → ℕ → ℕ
listens_to w sender j = if not (j == sender) && (w.store j).is_up then count j w.links else 0

neither : (b : Bool) → (if b then 0 else 0) ≡ zero
neither true = refl
neither false = refl

-- A list that keeps `i` or not, where `j` is kept or not.
counted :
    (keep_i keep_j : Bool) (j i : ℕ) (is rest : List ℕ)
    → ((j == i) ≡ true → keep_j ≡ keep_i)
    → count j rest ≡ (if keep_j then count j is else 0)
    → count j (if keep_i then i ∷ rest else rest) ≡ (if keep_j then count j (i ∷ is) else 0)
counted true true j i is rest h e = ap (λ n. (if j == i then 1 else 0) + n) e
counted true false j i is rest h e = elim (Bool-cases (j == i)) [
  | inl k ↦ let impossible = h k in absurd (cc)
  | inr k ↦ rw k (omega (arith, e))
]
counted false true j i is rest h e = elim (Bool-cases (j == i)) [
  | inl k ↦ let impossible = h k in absurd (cc)
  | inr k ↦ rw k (omega (arith, e))
]
counted false false j i is rest h e = e

none_more : (frames : List Bytes) (body : Bytes) (n : ℕ) → frames ≡ frames ++ replicate (0 * n) body
none_more frames body n = sym (append-nil frames) ∙ ap (λ m. frames ++ replicate m body) (nothing n)
  where
    nothing : (n : ℕ) → 0 ≡ 0 * n
    nothing n = omega arith

at_most_two : (b : Bool) → (if b then 2 else 1) ≤ 2
at_most_two b = ground arith

doubled :
    (b : Bool) (j : ℕ) (is : List ℕ)
    → count j (if b then is ++ is else is) ≡ (if b then 2 else 1) * count j is
doubled true j is = omega (arith, count-append j is is)
doubled false j is = omega arith

-- Frames that differ in one bit of one byte, and in nothing else.
pub record FlippedBit (frame other : Bytes) : Type 0 where
  pub front : Bytes
  pub byte : ℕ
  pub back : Bytes
  pub bit : ℕ
  pub in_byte : bit < 8
  pub before : frame ≡ front ++ byte ∷ back
  pub after : other ≡ front ++ bit_xor byte (2 ^ bit) ∷ back

flipped_later :
    (b : ℕ) (frame other : Bytes) → FlippedBit frame other → FlippedBit (b ∷ frame) (b ∷ other)
flipped_later b frame other f = record {
  front = b ∷ f.front;
  byte = f.byte;
  back = f.back;
  bit = f.bit;
  in_byte = f.in_byte;
  before = ap (◌∷◌ b) f.before;
  after = ap (◌∷◌ b) f.after;
}

xor_at-FlippedBit :
    (frame : Bytes) (index bit : ℕ)
    → index < length frame
    → bit < 8
    → FlippedBit frame (xor_at frame index (2 ^ bit))
unfolding xor_at
xor_at-FlippedBit [] index bit h k = absurd (omega (arith, h))
xor_at-FlippedBit (b ∷ frame) zero bit h k = record {
  front = [];
  byte = b;
  back = frame;
  bit = bit;
  in_byte = k;
  before = refl;
  after = refl;
}
xor_at-FlippedBit (b ∷ frame) (suc index) bit h k =
    flipped_later b frame (xor_at frame index (2 ^ bit))
      (xor_at-FlippedBit frame index bit (omega (arith, h)) k)

-- What may come of a frame that is damaged: one bit is flipped, or there was none.
abbrev pub IsDamaged : Bytes → Bytes → Type 0
IsDamaged [] other = other ≡ []
IsDamaged (b ∷ frame) other = FlippedBit (b ∷ frame) other

-- What the random generator draws for a frame: the place of one of its bytes, if it has any, and of a bit.
abbrev pub IsDrawn : {T : Type 0} → Bytes → Draws T → Type 0
IsDrawn frame d = ((is_empty frame ≡ false) → d.index < length frame) × (d.bit < 8)

flip_one_bit-IsDamaged :
    (frame : Bytes) (index bit : ℕ)
    → (is_empty frame ≡ false → index < length frame)
    → bit < 8
    → IsDamaged frame (flip_one_bit frame index bit)
unfolding flip_one_bit
flip_one_bit-IsDamaged [] index bit h k = refl
flip_one_bit-IsDamaged (b ∷ frame) index bit h k =
    xor_at-FlippedBit (b ∷ frame) index bit (h refl) k

module _ {T : Type 0} ⦃ops : TimeOps T⦄ where
  pub count-peers_of :
      (w : VirtualWire T) (sender j : ℕ) (is : List ℕ)
      → count j (peers_of w sender is)
        ≡ (if not (j == sender) && (w.store j).is_up then count j is else 0)
  unfolding peers_of
  count-peers_of w sender j [] = sym (neither (not (j == sender) && (w.store j).is_up))
  count-peers_of w sender j (i ∷ is) =
      counted (not (i == sender) && (w.store i).is_up) (not (j == sender) && (w.store j).is_up) j i
        is (peers_of w sender is)
        (λ e. ap (λ m. not (m == sender) && (w.store m).is_up) ((==_iff j i).0 e))
        (count-peers_of w sender j is)

  -- What one frame may come to: up to two copies, of the frame or of one with a bit flipped, for each
  -- listener, either all at once or all on their way.
  pub record Copied (w w' : VirtualWire T) (sender : ℕ) (frame : Bytes) : Type 0 where
    pub copies : ℕ
    pub few : copies ≤ 2
    pub body : Bytes
    pub body_is : (body ≡ frame) ⊎ IsDamaged frame body
    pub arrived :
        (((j : ℕ) → queue_of w' j ≡ queue_of w j ++ replicate (copies * listens_to w sender j) body)
          × (w'.pending ≡ w.pending))
        ⊎ (((j : ℕ) → queue_of w' j ≡ queue_of w j)
            × ((j : ℕ)
                → frames_for j w'.pending
                  ≡ frames_for j w.pending ++ replicate (copies * listens_to w sender j) body))

  nobody :
      (w w' : VirtualWire T) (sender : ℕ) (frame : Bytes)
      → w'.store ≡ w.store
      → w'.pending ≡ w.pending
      → Copied w w' sender frame
  nobody w w' sender frame e k = record {
    copies = 0;
    few = omega arith;
    body = frame;
    body_is = inl refl;
    arrived =
        inl (
          λ j. ap (λ s. (s j).queue) e ∙ none_more (queue_of w j) frame (listens_to w sender j),
          k,
        );
  }

  carried :
      (w w' : VirtualWire T) (sender : ℕ) (frame : Bytes) (n : ℕ) (peers : List ℕ) (body : Bytes)
      (delay : T) (clock : ℕ → T)
      → n ≤ 2
      → ((body ≡ frame) ⊎ IsDamaged frame body)
      → ((j : ℕ) → count j peers ≡ n * listens_to w sender j)
      → w'.store ≡ w.store
      → w'.pending ≡ w.pending
      → Copied w (carry_to w' peers body delay clock 0) sender frame
  carried w w' sender frame n peers body delay clock few which total e k = record {
    copies = n;
    few = few;
    body = body;
    body_is = which;
    arrived = elim (Bool-cases (ops.leq delay (ops.literal 0 1))) [
      | inl now ↦ inl (
        λ j.
            (carry_to_now w' peers body delay clock 0 j now).0
            ∙ ap₂ (λ q m. q ++ replicate m body) (ap (λ s. (s j).queue) e) (total j),
        (carry_to_now w' peers body delay clock 0 0 now).1 ∙ k,
      )
      | inr later ↦ inr (
        λ j. (carry_to_later w' peers body delay clock 0 j later).0 ∙ ap (λ s. (s j).queue) e,
        λ j.
            (carry_to_later w' peers body delay clock 0 j later).1
            ∙ ap₂ (λ q m. q ++ replicate m body) (ap (frames_for j) k) (total j),
      )
    ];
  }

  pub show_frame_keeps :
      (w : VirtualWire T) (sender : ℕ) (frame : Bytes)
      → ((show_frame w sender frame).store ≡ w.store)
        × ((show_frame w sender frame).pending ≡ w.pending)
  unfolding show_frame
  show_frame_keeps w sender frame = ground arith

  carry-Copied :
      (w w' : VirtualWire T) (sender : ℕ) (frame : Bytes) (d : Draws T) (clock : ℕ → T)
      → w'.store ≡ w.store
      → w'.pending ≡ w.pending
      → IsDrawn frame d
      → Copied w (carry w' (peers_of w sender w.links) frame d clock) sender frame
  unfolding carry
  carry-Copied w w' sender frame d clock e k drawn =
      let twice = happens w'.fault.duplicate d.for_duplicate in
      let corrupt = happens w'.fault.corrupt d.for_corrupt in
      let flipped = flip_one_bit frame d.index d.bit in
      carried w _ sender frame (if twice then 2 else 1) _ (if corrupt then flipped else frame)
        (delay_of w'.fault d) clock (at_most_two twice)
        (either (λ body. (body ≡ frame) ⊎ IsDamaged frame body) corrupt flipped frame
          (inr (flip_one_bit-IsDamaged frame d.index d.bit drawn.0 drawn.1)) (inl refl))
        (λ j.
          doubled twice j (peers_of w sender w.links)
          ∙ ap (λ n. (if twice then 2 else 1) * n) (count-peers_of w sender j w.links))
        e k

  -- Whatever goes wrong on the wire, a frame comes to up to two copies, of the frame itself or of the
  -- frame with one bit flipped (an empty frame has none), for each other endpoint that is up and each
  -- time that it is attached. Either they are all put behind the frames in these endpoints' queues and
  -- none is on its way, or all are put behind those on their way and no queue changes. The sender and
  -- an endpoint that is down or not attached get nothing. What is drawn is in the ranges asked for.
  pub transmit-Copied :
      (w : VirtualWire T) (sender : ℕ) (frame : Bytes) (d : Draws T) (clock : ℕ → T)
      → IsDrawn frame d
      → Copied w (transmit w sender frame d clock) sender frame
  unfolding transmit show_frame carry
  transmit-Copied w sender frame d clock drawn =
      let peers = peers_of w sender w.links in
      let (store, pending) = show_frame_keeps w sender frame in
      let seen = show_frame w sender frame in
      let counted = record seen { transmitted = seen.transmitted + 1 } in
      let lost = record counted { dropped = counted.dropped + 1 } in
      let P = λ (v : VirtualWire T). Copied w v sender frame in
      either P (is_empty peers) counted _ (nobody w counted sender frame store pending) (
        either P (happens w.fault.loss d.for_loss) lost (carry counted peers frame d clock)
          (nobody w lost sender frame store pending)
          (carry-Copied w counted sender frame d clock store pending drawn))
