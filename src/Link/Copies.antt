-- ===== src/Link/Copies.antt =====
-- Copies of a frame on the simulated wire (minitcp/link/simulated.py).
use mini_tcp.Base.{
  ℕ, suc, ◌+◌, ◌≡◌, refl, sym, ap, ◌∙◌, Bool, true, false, List, [], ◌∷◌, ◌++◌, ◌==◌, arith,
  if◌then◌else◌, Bytes, replicate, append_assoc, append-nil, Bool-cases, ==_iff, inl, inr,
}
use mini_tcp.Time.{TimeOps}
use mini_tcp.Link.{InFlight, VirtualWire, update, enqueue, carry_one, carry_to}

-- How often a number occurs.
abbrev pub count : ℕ → List ℕ → ℕ
count j [] = 0
count j (i ∷ is) = (if j == i then 1 else 0) + count j is

pub count-append : (j : ℕ) (is js : List ℕ) → count j (is ++ js) ≡ count j is + count j js
count-append j [] js = omega arith
count-append j (i ∷ is) js = omega (arith, count-append j is js)

-- The frames on their way to an endpoint, in their order.
abbrev pub frames_for : {T : Type 0} → ℕ → List (InFlight T) → List Bytes
frames_for j [] = []
frames_for j (e ∷ es) = if j == e.peer then e.frame ∷ frames_for j es else frames_for j es

pub frames_for-append :
    {T : Type 0} (j : ℕ) (xs ys : List (InFlight T))
    → frames_for j (xs ++ ys) ≡ frames_for j xs ++ frames_for j ys
frames_for-append j [] ys = refl
frames_for-append j (e ∷ es) ys = elim (Bool-cases (j == e.peer)) [
  | inl k ↦ rw k (ap (◌∷◌ e.frame) (frames_for-append j es ys))
  | inr k ↦ rw k (frames_for-append j es ys)
]

-- One copy more, of a copy that goes to `i`, as `j` sees it.
pub one_more :
    (j i : ℕ) (frames : List Bytes) (f : Bytes) (n : ℕ)
    → (if j == i then frames ++ f ∷ [] else frames) ++ replicate n f
      ≡ frames ++ replicate ((if j == i then 1 else 0) + n) f
one_more j i frames f n = elim (Bool-cases (j == i)) [
  | inl k ↦
      rw k (append_assoc frames (f ∷ []) (replicate n f) ∙ again (suc n) (1 + n) (omega arith))
  | inr k ↦ rw k (again n (0 + n) (omega arith))
]
  where
    again : (m n : ℕ) → m ≡ n → frames ++ replicate m f ≡ frames ++ replicate n f
    again m n e = ap (λ k. frames ++ replicate k f) e

module _ {T : Type 0} ⦃ops : TimeOps T⦄ where
  -- The queue of endpoint `j`.
  abbrev pub queue_of : VirtualWire T → ℕ → List Bytes
  queue_of w j = (w.store j).queue

  pub queue-enqueue :
      (w : VirtualWire T) (i j : ℕ) (f : Bytes)
      → queue_of (enqueue w i f) j ≡ (if j == i then queue_of w j ++ f ∷ [] else queue_of w j)
  unfolding enqueue update
  queue-enqueue w i j f = settle (j == i) (==_iff j i).0
    where
      settle :
          (b : Bool)
          → (b ≡ true → j ≡ i)
          → (if b
              then record (w.store i) { queue = (w.store i).queue ++ f ∷ [] }
              else w.store j).queue
            ≡ (if b then queue_of w j ++ f ∷ [] else queue_of w j)
      settle true h = ap (λ m. queue_of w m ++ f ∷ []) (sym (h refl))
      settle false h = refl

  enqueue_keeps : (w : VirtualWire T) (i : ℕ) (f : Bytes) → (enqueue w i f).pending ≡ w.pending
  unfolding enqueue
  enqueue_keeps w i f = refl

  now_enqueued :
      (w : VirtualWire T) (i : ℕ) (f : Bytes) (delay now : T)
      → ops.leq delay (ops.literal 0 1) ≡ true
      → carry_one w i f delay now ≡ enqueue w i f
  unfolding carry_one
  now_enqueued w i f delay now e = rw e refl

  waiting : ℕ → Bytes → T → T → InFlight T
  waiting i f delay now = record { due_at = ops.plus now delay; peer = i; frame = f }

  later_pending :
      (w : VirtualWire T) (i : ℕ) (f : Bytes) (delay now : T)
      → ops.leq delay (ops.literal 0 1) ≡ false
      → carry_one w i f delay now ≡ record w { pending = w.pending ++ waiting i f delay now ∷ [] }
  unfolding carry_one waiting
  later_pending w i f delay now e = rw e refl

  frames_for-waiting :
      (j i : ℕ) (f : Bytes) (delay now : T) (entries : List (InFlight T))
      → frames_for j (entries ++ waiting i f delay now ∷ [])
        ≡ (if j == i then frames_for j entries ++ f ∷ [] else frames_for j entries)
  unfolding waiting
  frames_for-waiting j i f delay now entries =
      frames_for-append j entries (waiting i f delay now ∷ []) ∙ settle (j == i)
    where
      settle :
          (b : Bool)
          → frames_for j entries ++ (if b then f ∷ [] else [])
            ≡ (if b then frames_for j entries ++ f ∷ [] else frames_for j entries)
      settle true = refl
      settle false = append-nil (frames_for j entries)

  -- Copies without a delay go into the queues.
  pub carry_to_now :
      (w : VirtualWire T) (is : List ℕ) (f : Bytes) (delay : T) (clock : ℕ → T) (k j : ℕ)
      → ops.leq delay (ops.literal 0 1) ≡ true
      → let w' = carry_to w is f delay clock k in
        (queue_of w' j ≡ queue_of w j ++ replicate (count j is) f) × (w'.pending ≡ w.pending)
  unfolding carry_to carry_one
  carry_to_now w [] f delay clock k j e = (sym (append-nil (queue_of w j)), refl)
  carry_to_now w (i ∷ is) f delay clock k j e =
      let same = now_enqueued w i f delay (clock k) e in
      let (queues, pending) =
        carry_to_now (carry_one w i f delay (clock k)) is f delay clock (suc k) j e in
      (
        queues
            ∙ ap (λ v. queue_of v j ++ replicate (count j is) f) same
            ∙ ap (λ q. q ++ replicate (count j is) f) (queue-enqueue w i j f)
            ∙ one_more j i (queue_of w j) f (count j is),
        pending ∙ ap (λ (v : VirtualWire T). v.pending) same ∙ enqueue_keeps w i f,
      )

  -- Copies with a delay wait.
  pub carry_to_later :
      (w : VirtualWire T) (is : List ℕ) (f : Bytes) (delay : T) (clock : ℕ → T) (k j : ℕ)
      → ops.leq delay (ops.literal 0 1) ≡ false
      → let w' = carry_to w is f delay clock k in
        (queue_of w' j ≡ queue_of w j)
        × (frames_for j w'.pending ≡ frames_for j w.pending ++ replicate (count j is) f)
  unfolding carry_to carry_one
  carry_to_later w [] f delay clock k j e = (refl, sym (append-nil (frames_for j w.pending)))
  carry_to_later w (i ∷ is) f delay clock k j e =
      let same = later_pending w i f delay (clock k) e in
      let (queues, frames) =
        carry_to_later (carry_one w i f delay (clock k)) is f delay clock (suc k) j e in
      (
        queues ∙ ap (λ v. queue_of v j) same,
        frames
            ∙ ap (λ (v : VirtualWire T). frames_for j v.pending ++ replicate (count j is) f) same
            ∙ ap (λ q. q ++ replicate (count j is) f)
                (frames_for-waiting j i f delay (clock k) w.pending)
            ∙ one_more j i (frames_for j w.pending) f (count j is),
      )
