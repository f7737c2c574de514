-- ===== src/Witnesses/Cable.antt =====
-- A frame on a simulated wire.
use mini_tcp.Base.{ℕ, ◌≡◌, refl, false, [], ◌∷◌, ◌++◌, Bytes, replicate, true, arith}
use mini_tcp.Link.{FaultProfile, SimulatedLink, VirtualWire, Draws, make, attach, transmit, pump}
use mini_tcp.Link.Copies.{queue_of, frames_for}
use mini_tcp.Link.Carried.{Copied, listens_to, transmit-Copied}
use mini_tcp.Link.Pumped.{due_by, not_due_by, pump_lem}
use mini_tcp.Link.Faultless.{IsClean, transmit_clean}
use mini_tcp.Witnesses.{milliseconds}

abbrev clean : FaultProfile ℕ
clean = record { loss = 0; duplicate = 0; reorder = 0; corrupt = 0; delay_low = 0; delay_high = 0 }

-- Every frame is repeated and damaged, and takes some time.
abbrev faulty : FaultProfile ℕ
faulty = record {
  loss = 100;
  duplicate = 1000;
  reorder = 0;
  corrupt = 1000;
  delay_low = 1000;
  delay_high = 5000;
}

abbrev draws : Draws ℕ
draws = record {
  for_loss = 500;
  for_corrupt = 500;
  index = 1;
  bit = 0;
  for_delay = 3000;
  for_reorder = 500;
  for_duplicate = 500;
}

abbrev idle : SimulatedLink
idle = record {
  mac = 2 ∷ 0 ∷ 0 ∷ 0 ∷ 0 ∷ 1 ∷ [];
  mtu = 1500;
  is_up = true;
  on_wire = false;
  queue = [];
}

-- Three endpoints.
abbrev hub : FaultProfile ℕ → VirtualWire ℕ
hub fault = attach (attach (attach (make fault false (λ i. idle)) 0) 1) 2

abbrev frame : Bytes
frame = 1 ∷ 2 ∷ 3 ∷ []

transmit-Copied_example : Copied (hub faulty) (transmit (hub faulty) 0 frame draws (λ k. k)) 0 frame
transmit-Copied_example =
    transmit-Copied (hub faulty) 0 frame draws (λ k. k) (λ e. omega arith, omega arith)

clean-IsClean : IsClean (hub clean).fault
unfolding make attach
clean-IsClean = record {
  no_loss = refl;
  no_corruption = refl;
  no_reordering = refl;
  no_repetition = refl;
  no_delay = refl;
}

transmit_clean_example :
    let w' = transmit (hub clean) 0 frame draws (λ k. k) in
    (queue_of w' 2 ≡ queue_of (hub clean) 2 ++ replicate (listens_to (hub clean) 0 2) frame)
    × (w'.pending ≡ (hub clean).pending)
transmit_clean_example = transmit_clean (hub clean) 0 frame draws (λ k. k) 2 clean-IsClean refl

-- Two frames on their way to endpoint 1, of which the second is due first.
abbrev busy : VirtualWire ℕ
busy = record (hub clean) {
  pending =
      record { due_at = 9; peer = 1; frame = frame }
      ∷ record { due_at = 4; peer = 1; frame = 7 ∷ [] }
      ∷ [];
}

pump_lem_example :
    (queue_of (pump busy 5) 1 ≡ queue_of busy 1 ++ frames_for 1 (due_by 5 busy.pending))
    × ((pump busy 5).pending ≡ not_due_by 5 busy.pending)
pump_lem_example = pump_lem busy 5 1
