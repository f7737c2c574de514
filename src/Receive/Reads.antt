-- ===== src/Receive/Reads.antt =====
-- What the application reads from a receive queue is the peer's stream.
use mini_tcp.Base.{
  ℕ, ◌+◌, ◌-◌, ◌≤◌, ◌<◌, ◌≡◌, refl, sym, ap, ◌∙◌, true, List, [], ◌∷◌, ◌++◌, arith, ◌==◌, Bytes,
  length, take, drop, min, subst, ap₂, length-append, length-take, length-drop, drop-drop,
  Bool-cases, inl, inr,
}
use mini_tcp.Base.Slices.{slice, IsPart, take-IsPart, append-IsPart, drop-slice}
use mini_tcp.Seqno.{seq_space, seq_half}
use mini_tcp.Seqno.Order.{wire}
use mini_tcp.Receive.{ReceiveQueue, make, insert, compact, read}
use mini_tcp.Receive.Window.{read-IsValid}
use mini_tcp.Receive.Stream.{
  Tracks, insert-Advances, make-Tracks, length-unread, unread-IsPart, Parked,
}
use mini_tcp.Reorder.Entries.{Each}

abbrev unread : ReceiveQueue → Bytes
unread q = drop q.read_pos q.buf

unread-compact : (q : ReceiveQueue) → unread (compact q) ≡ unread q
unfolding compact
unread-compact q = ground arith

none_read : (m n : ℕ) → (m == 0) ≡ true → 0 ≡ min m n
none_read m n h = ground arith

-- One call hands out a prefix of the unread bytes and leaves the others, whether or not the buffer
-- is compacted.
read_unread :
    (q : ReceiveQueue) (max_bytes : ℕ)
    → q.read_pos ≤ length q.buf
    → let count = min max_bytes (length (unread q)) in
      (unread (read q max_bytes).0 ≡ drop count (unread q))
      × ((read q max_bytes).1 ≡ take count (unread q))
unfolding read
read_unread q max_bytes h = elim (Bool-cases (max_bytes == 0)) [
  | inl e ↦
      rw e (
        ap (λ k. drop k (unread q)) (none_read _ _ e),
        ap (λ k. take k (unread q)) (none_read _ _ e),
      )
  | inr e ↦ rw e (
    unread-compact _
        ∙ sym (
            drop-drop (min max_bytes (length (unread q))) q.read_pos q.buf
            ∙ ap (λ k. drop k q.buf) new_pos),
    ap (λ k. take k (unread q)) (omega (arith, new_pos)),
  )
]
  where
    new_pos :
        q.read_pos + min max_bytes (length (unread q)) ≡ min (q.read_pos + max_bytes) (length q.buf)
    new_pos = omega (arith, length-drop q.read_pos q.buf)

-- `read` touches neither the expected number nor the parked payloads.
read_keeps :
    (q : ReceiveQueue) (max_bytes : ℕ)
    → ((read q max_bytes).0.nxt ≡ q.nxt) × ((read q max_bytes).0.ooo ≡ q.ooo)
unfolding read compact
read_keeps q max_bytes = ground arith

module _ (S : ℕ → ℕ) (base limit : ℕ) (small : limit < seq_space) where
  pub read-Tracks :
      {r n : ℕ} (q : ReceiveQueue) (max_bytes : ℕ)
      → Tracks S base limit small r n q
      → IsPart S r (read q max_bytes).1
        × Tracks S base limit small (r + length (read q max_bytes).1) n (read q max_bytes).0
  read-Tracks {r} {n} q max_bytes t =
      let count = min max_bytes (length (unread q)) in
      let (left, chunk) = read_unread q max_bytes t.valid.read_within in
      let (nxt, ooo) = read_keeps q max_bytes in
      let total : length (read q max_bytes).1 ≡ count =
        ap length chunk ∙ length-take count (unread q) ∙ omega arith in
      (
        rw chunk (take-IsPart S r count (unread q) (unread-IsPart S base limit small t)),
        record {
          valid = read-IsValid q max_bytes t.valid;
          at_nxt = nxt ∙ t.at_nxt;
          unread =
              left
              ∙ ap (drop count) t.unread
              ∙ drop-slice S count r (n - r)
              ∙ ap₂ (slice S) (ap (◌+◌ r) (sym total)) (omega (arith, total));
          ordered = omega (arith, total, length-unread S base limit small t, t.ordered);
          within = t.within;
          parked = subst (λ x. Each (Parked S base limit small) x.entries) (sym ooo) t.parked;
        },
      )

-- A call of the queue: a segment arrives, or the application reads.
pub data Call : Type 0 where
  arrives : ℕ → Bytes → Call
  reads : ℕ → Call

-- The queue after the calls, with all that was read, in order.
pub run : ReceiveQueue → List Call → ReceiveQueue × Bytes
run q [] = (q, [])
run q (arrives seq payload ∷ calls) = run (insert q seq payload).0 calls
run q (reads max_bytes ∷ calls) =
    let (q', chunk) = read q max_bytes in let (q'', rest) = run q' calls in (q'', chunk ++ rest)

-- Each arriving segment is a piece of the stream `S` of `limit` bytes whose first byte has wire
-- number `base`. Order, overlap and repetition are free.
abbrev pub Genuine : (ℕ → ℕ) → ℕ → ℕ → List Call → Type 0
Genuine S base limit [] = Unit {0}
Genuine S base limit (arrives seq payload ∷ calls) =
    ((p : ℕ) × (seq ≡ wire base p) × IsPart S p payload × (p + length payload ≤ limit))
    × Genuine S base limit calls
Genuine S base limit (reads max_bytes ∷ calls) = Genuine S base limit calls

module _ (S : ℕ → ℕ) (base limit : ℕ) (small : limit < seq_space) (half : limit < seq_half) where
  run-Tracks :
      (calls : List Call) (r n : ℕ) (q : ReceiveQueue)
      → Tracks S base limit small r n q
      → Genuine S base limit calls
      → IsPart S r (run q calls).1
        × ((m : ℕ) × (n ≤ m)
            × Tracks S base limit small (r + length (run q calls).1) m (run q calls).0)
  unfolding run
  run-Tracks [] r n q t g =
      (refl, (n, omega arith, subst (λ x. Tracks S base limit small x n q) (omega arith) t))
  run-Tracks (arrives seq payload ∷ calls) r n q t ((p, wired, part, fits), g) =
      let step =
        insert-Advances S base limit small n q p payload t part fits (omega (arith, t.within))
          (omega (arith, t.within)) in
      let (rest, later) = run-Tracks calls r _ (insert q (wire base p) payload).0 step.tracks g in
      rw wired (rest, (later.0, omega (arith, later.1), later.2))
  run-Tracks (reads max_bytes ∷ calls) r n q t g =
      let (part, next) = read-Tracks S base limit small q max_bytes t in
      let (rest, later) =
        run-Tracks calls (r + length (read q max_bytes).1) n (read q max_bytes).0 next g in
      (
        append-IsPart S r _ (read q max_bytes).1 _ part rest refl,
        (
          later.0,
          later.1,
          subst (λ x. Tracks S base limit small x later.0 (run (read q max_bytes).0 calls).0)
              (omega (arith, length-append (read q max_bytes).1 (run (read q max_bytes).0 calls).1))
              later.2,
        ),
      )

-- Whatever genuine segments arrive, in whatever order, overlapping or repeated, and however the
-- application reads in between, the bytes read are a prefix of the peer's stream, for a stream of
-- less than 2 ^ 31 bytes.
pub reads_in_order :
    (S : ℕ → ℕ) (irs limit capacity : ℕ) (calls : List Call)
    → limit < seq_half
    → Genuine S (irs + 1) limit calls
    → (run (make irs capacity) calls).1 ≡ slice S 0 (length (run (make irs capacity) calls).1)
reads_in_order S irs limit capacity calls half g =
    let small : limit < seq_space = omega arith in
    (run-Tracks S (irs + 1) limit small half calls 0 0 (make irs capacity)
      (make-Tracks S irs limit capacity small) g).0
