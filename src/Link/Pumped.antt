-- ===== src/Link/Pumped.antt =====
-- Frames on their way across the simulated wire (minitcp/link/simulated.py: `VirtualWire.pump`).
use mini_tcp.Base.{
  ℕ, ◌≡◌, refl, sym, ap, ◌∙◌, Bool, true, false, List, [], ◌∷◌, ◌++◌, ◌==◌, if◌then◌else◌,
  append_assoc, append-nil, Bool-cases, inl, inr,
}
use mini_tcp.Time.{TimeOps}
use mini_tcp.Link.{InFlight, VirtualWire, enqueue, split_due, enqueue_all, pump}
use mini_tcp.Link.Copies.{frames_for, queue_of, queue-enqueue}

module _ {T : Type 0} ⦃ops : TimeOps T⦄ where
  -- The entries whose time has come, and those whose time has not.
  abbrev pub due_by : T → List (InFlight T) → List (InFlight T)
  due_by now [] = []
  due_by now (e ∷ es) = if ops.leq e.due_at now then e ∷ due_by now es else due_by now es

  abbrev pub not_due_by : T → List (InFlight T) → List (InFlight T)
  not_due_by now [] = []
  not_due_by now (e ∷ es) =
      if ops.leq e.due_at now then not_due_by now es else e ∷ not_due_by now es

  split_due_lem :
      (now : T) (es : List (InFlight T)) → split_due now es ≡ (due_by now es, not_due_by now es)
  unfolding split_due
  split_due_lem now [] = refl
  split_due_lem now (e ∷ es) = elim (Bool-cases (ops.leq e.due_at now)) [
    | inl k ↦
        rw k (
          ap (λ (p : List (InFlight T) × List (InFlight T)). (e ∷ p.0, p.1)) (split_due_lem now es))
    | inr k ↦
        rw k (
          ap (λ (p : List (InFlight T) × List (InFlight T)). (p.0, e ∷ p.1)) (split_due_lem now es))
  ]

  queue-enqueue_all :
      (w : VirtualWire T) (es : List (InFlight T)) (j : ℕ)
      → queue_of (enqueue_all w es) j ≡ queue_of w j ++ frames_for j es
  unfolding enqueue_all
  queue-enqueue_all w [] j = sym (append-nil (queue_of w j))
  queue-enqueue_all w (e ∷ es) j =
      queue-enqueue_all (enqueue w e.peer e.frame) es j
      ∙ ap (λ q. q ++ frames_for j es) (queue-enqueue w e.peer j e.frame)
      ∙ settle (j == e.peer)
    where
      settle :
          (b : Bool)
          → (if b then queue_of w j ++ e.frame ∷ [] else queue_of w j) ++ frames_for j es
            ≡ queue_of w j ++ (if b then e.frame ∷ frames_for j es else frames_for j es)
      settle true = append_assoc (queue_of w j) (e.frame ∷ []) (frames_for j es)
      settle false = refl

  enqueue_all_keeps :
      (w : VirtualWire T) (es : List (InFlight T)) → (enqueue_all w es).pending ≡ w.pending
  unfolding enqueue_all enqueue
  enqueue_all_keeps w [] = refl
  enqueue_all_keeps w (e ∷ es) = enqueue_all_keeps (enqueue w e.peer e.frame) es

  -- `pump` puts exactly the frames whose time has come behind those in their endpoints' queues, each
  -- endpoint's in the order in which they were sent, and the others stay on their way in their order, so
  -- that no frame is lost or repeated.
  pub pump_lem :
      (w : VirtualWire T) (now : T) (j : ℕ)
      → (queue_of (pump w now) j ≡ queue_of w j ++ frames_for j (due_by now w.pending))
        × ((pump w now).pending ≡ not_due_by now w.pending)
  unfolding pump
  pump_lem w now j = rw (split_due_lem now w.pending) (
    queue-enqueue_all (record w { pending = not_due_by now w.pending }) (due_by now w.pending) j,
    enqueue_all_keeps (record w { pending = not_due_by now w.pending }) (due_by now w.pending),
  )
