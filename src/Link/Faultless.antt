-- ===== src/Link/Faultless.antt =====
-- The simulated wire (minitcp/link/simulated.py) without faults.
use mini_tcp.Base.{
  ℕ, ◌≡◌, refl, sym, ap, ap₂, subst, ◌+◌, ◌∙◌, true, false, List, [], ◌∷◌, ◌++◌, arith, Bytes,
  is_empty, replicate, append-nil, Bool-cases, inl, inr,
}
use mini_tcp.Time.{TimeOps}
use mini_tcp.Link.{
  FaultProfile, VirtualWire, Draws, peers_of, carry, show_frame, transmit, delay_of, below, truthy,
  zero_float,
}
use mini_tcp.Link.Copies.{count, queue_of, carry_to_now}
use mini_tcp.Link.Carried.{listens_to, count-peers_of, show_frame_keeps}

none_empty : (is : List ℕ) (j : ℕ) → is_empty is ≡ true → count j is ≡ 0
none_empty [] j e = refl
none_empty (i ∷ is) j e = absurd (cc)

module _ {T : Type 0} ⦃ops : TimeOps T⦄ where
  -- The profile asks for no fault and no delay.
  pub record IsClean (f : FaultProfile T) : Type 0 where
    pub no_loss : truthy f.loss ≡ false
    pub no_corruption : truthy f.corrupt ≡ false
    pub no_reordering : truthy f.reorder ≡ false
    pub no_repetition : truthy f.duplicate ≡ false
    pub no_delay : below zero_float f.delay_high ≡ false

  delay_of_clean : (f : FaultProfile T) (d : Draws T) → IsClean f → delay_of f d ≡ zero_float
  unfolding delay_of
  delay_of_clean f d h = rw (h.no_delay, h.no_reordering) refl

  fault-show_frame :
      (w : VirtualWire T) (sender : ℕ) (frame : Bytes) → (show_frame w sender frame).fault ≡ w.fault
  unfolding show_frame
  fault-show_frame w sender frame = ground arith

  carry_clean :
      (w : VirtualWire T) (peers : List ℕ) (frame : Bytes) (d : Draws T) (clock : ℕ → T) (j : ℕ)
      → IsClean w.fault
      → ops.leq zero_float zero_float ≡ true
      → let w' = carry w peers frame d clock in
        (queue_of w' j ≡ queue_of w j ++ replicate (count j peers) frame) × (w'.pending ≡ w.pending)
  unfolding carry
  carry_clean w peers frame d clock j h zero =
      rw (h.no_corruption, h.no_repetition, delay_of_clean w.fault d h)
        (carry_to_now w peers frame zero_float clock 0 j zero)

  -- On a wire without faults, a frame is put once behind those in the queue of each other endpoint
  -- for each time that it is attached, if it is up, and in no other queue, at once.
  pub transmit_clean :
      (w : VirtualWire T) (sender : ℕ) (frame : Bytes) (d : Draws T) (clock : ℕ → T) (j : ℕ)
      → IsClean w.fault
      → ops.leq zero_float zero_float ≡ true
      → let w' = transmit w sender frame d clock in
        (queue_of w' j ≡ queue_of w j ++ replicate (listens_to w sender j) frame)
        × (w'.pending ≡ w.pending)
  unfolding transmit
  transmit_clean w sender frame d clock j h zero =
      let peers = peers_of w sender w.links in
      let (store, pending) = show_frame_keeps w sender frame in
      let heard = count-peers_of w sender j w.links in
      elim (Bool-cases (is_empty peers)) [
        | inl e ↦ rw e (
          ap (λ s. (s j).queue) store
              ∙ sym (append-nil (queue_of w j))
              ∙ ap (λ n. queue_of w j ++ replicate n frame) (sym (none_empty peers j e) ∙ heard),
          pending,
        )
        | inr e ↦
            let seen = show_frame w sender frame in
            let counted = record seen { transmitted = seen.transmitted + 1 } in
            let clean = subst IsClean (sym (fault-show_frame w sender frame)) h in
            let (queues, same) = carry_clean counted peers frame d clock j clean zero in
            rw (e, h.no_loss)
              (
                queues ∙ ap₂ (λ q n. q ++ replicate n frame) (ap (λ s. (s j).queue) store) heard,
                same ∙ pending,
              )
      ]
