-- ===== src/Send/Accepted.antt =====
-- The bytes that `SendQueue.write` (minitcp/net/tcp/buffer.py) accepts.
use mini_tcp.Base.{
  ℕ, ◌+◌, ◌-◌, ◌≡◌, sym, ap, ◌∙◌, true, false, min, leb, arith, Bytes, length, take, Bool-cases,
  inl, inr, length-take, take_whole, take_all, leb→le, length-append,
}
use mini_tcp.Send
use mini_tcp.Send.{SendQueue}

-- How much is accepted, and that it goes into the buffer.
pub write_count :
    (q : SendQueue) (d : Bytes) → (Send.write q d).1 ≡ min (length d) (q.capacity - length q.buf)
unfolding Send.write
write_count q d = elim (Bool-cases (leb q.capacity (length q.buf))) [
  | inl full ↦ rw full (ground arith)
  | inr room ↦ rw room (omega (arith, length-take (q.capacity - length q.buf) d))
]

pub length-write :
    (q : SendQueue) (d : Bytes) → length (Send.write q d).0.buf ≡ length q.buf + (Send.write q d).1
unfolding Send.write
length-write q d = elim (Bool-cases (leb q.capacity (length q.buf))) [
  | inl full ↦ rw full (omega arith)
  | inr room ↦ rw room (length-append q.buf (take (q.capacity - length q.buf) d))
]

pub length_accepted :
    (q : SendQueue) (d : Bytes) → length (take (Send.write q d).1 d) ≡ (Send.write q d).1
length_accepted q d = omega (arith, length-take (Send.write q d).1 d, write_count q d)

take_at_most : (k : ℕ) (d : Bytes) → take (min (length d) k) d ≡ take k d
take_at_most k d = elim (Bool-cases (leb (length d) k)) [
  | inl e ↦
      ap (λ n. take n d) (fewer (length d) k e) ∙ take_whole d ∙ sym (take_all k d (leb→le _ _ e))
  | inr e ↦ ap (λ n. take n d) (more (length d) k e)
]
  where
    fewer : (n k : ℕ) → leb n k ≡ true → min n k ≡ n
    fewer n k e = ground arith

    more : (n k : ℕ) → leb n k ≡ false → min n k ≡ k
    more n k e = ground arith

pub take_accepted :
    (q : SendQueue) (d : Bytes) → take (Send.write q d).1 d ≡ take (q.capacity - length q.buf) d
take_accepted q d = rw (write_count q d) (take_at_most (q.capacity - length q.buf) d)
