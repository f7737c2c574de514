-- ===== src/Link.antt =====
-- The simulated wire (minitcp/link/simulated.py): `FaultProfile`, `VirtualWire` and `SimulatedLink`.
-- Endpoints are numbered, and the wire holds a store of them, since each refers to the other. Probabilities and
-- times are floats, of which Time.antt gives the operations. The numbers that the random generator
-- draws and the readings of the clock are arguments. Locks are not modelled.
pub mod Copies
pub mod Carried
pub mod Pumped
pub mod Faultless
use Prim.Native.Nat.{bit_xor}
use mini_tcp.Base.{
  ℕ, zero, suc, ◌+◌, ◌^◌, Bool, true, false, not, ◌&&◌, ◌||◌, Option, none, some, List, [], ◌∷◌,
  ◌++◌, ◌==◌, if◌then◌else◌, Bytes, length, is_empty, All,
}
use mini_tcp.Time.{TimeOps, at_least}

pub record FaultProfile (T : Type 0) : Type 0 where
  pub loss : T
  pub duplicate : T
  pub reorder : T
  pub corrupt : T
  pub delay_low : T
  pub delay_high : T

pub record SimulatedLink : Type 0 where
  pub mac : Bytes
  pub mtu : ℕ
  pub is_up : Bool
  -- Whether its `_wire` is the wire; otherwise it is None.
  pub on_wire : Bool
  pub queue : List Bytes

-- A frame on its way: when it is due, to whom, and what.
pub record InFlight (T : Type 0) : Type 0 where
  pub due_at : T
  pub peer : ℕ
  pub frame : Bytes

pub record VirtualWire (T : Type 0) : Type 0 where
  pub fault : FaultProfile T
  -- Whether there is an `on_frame`, and its calls.
  pub watched : Bool
  pub shown : List (ℕ × Bytes)
  pub links : List ℕ
  pub pending : List (InFlight T)
  pub store : ℕ → SimulatedLink
  pub transmitted : ℕ
  pub dropped : ℕ
  pub duplicated : ℕ
  pub corrupted : ℕ

-- What the random generator draws for one frame, if it is asked.
pub record Draws (T : Type 0) : Type 0 where
  pub for_loss : T
  pub for_corrupt : T
  -- randrange(len(frame)) and randrange(8)
  pub index : ℕ
  pub bit : ℕ
  pub for_delay : T
  pub for_reorder : T
  pub for_duplicate : T

unfoldable pub update : (ℕ → SimulatedLink) → ℕ → SimulatedLink → ℕ → SimulatedLink
update store i link j = if j == i then link else store j

unfoldable pub contains : ℕ → List ℕ → Bool
contains i [] = false
contains i (j ∷ js) = (j == i) || contains i js

-- list.remove
unfoldable pub remove : ℕ → List ℕ → List ℕ
remove i [] = []
remove i (j ∷ js) = if j == i then js else j ∷ remove i js

-- buf[i] ^= mask
unfoldable pub xor_at : Bytes → ℕ → ℕ → Bytes
xor_at [] i mask = []
xor_at (b ∷ bs) zero mask = bit_xor b mask ∷ bs
xor_at (b ∷ bs) (suc i) mask = b ∷ xor_at bs i mask

-- With what randrange(len(frame)) and randrange(8) draw.
unfoldable pub flip_one_bit : Bytes → ℕ → ℕ → Bytes
unfolding xor_at
flip_one_bit frame index bit = if is_empty frame then frame else xor_at frame index (2 ^ bit)

module _ {T : Type 0} ⦃ops : TimeOps T⦄ where
  -- a < b
  abbrev pub below : T → T → Bool
  below a b = not (ops.leq b a)

  abbrev pub zero_float : T
  zero_float = ops.literal 0 1

  -- bool(a)
  abbrev pub truthy : T → Bool
  truthy a = not (ops.leq a zero_float && ops.leq zero_float a)

  abbrev pub is_probability : T → Bool
  is_probability a = ops.leq zero_float a && ops.leq a (ops.literal 1 1)

  -- The guards of the constructor; it raises ValueError otherwise.
  unfoldable pub is_profile : FaultProfile T → Bool
  is_profile f =
      is_probability f.loss
      && is_probability f.duplicate
      && is_probability f.reorder
      && is_probability f.corrupt
      && not (below f.delay_low zero_float || below f.delay_high f.delay_low)

  -- The wire that the constructor makes, with endpoints that are not attached yet.
  unfoldable pub make : FaultProfile T → Bool → (ℕ → SimulatedLink) → VirtualWire T
  make fault watched store = record {
    fault = fault;
    watched = watched;
    shown = [];
    links = [];
    pending = [];
    store = store;
    transmitted = 0;
    dropped = 0;
    duplicated = 0;
    corrupted = 0;
  }

  unfoldable pub attach : VirtualWire T → ℕ → VirtualWire T
  attach w i = record w {
    store = update w.store i (record (w.store i) { on_wire = true });
    links = w.links ++ i ∷ [];
  }

  unfoldable pub detach : VirtualWire T → ℕ → VirtualWire T
  detach w i = if contains i w.links then record w { links = remove i w.links } else w

  -- The constructor of SimulatedLink with a wire; `none` is a ValueError.
  unfoldable pub connect : VirtualWire T → ℕ → Bytes → ℕ → Option (VirtualWire T)
  connect w i mac mtu =
      let link : SimulatedLink = record {
        mac = mac;
        mtu = mtu;
        is_up = true;
        on_wire = false;
        queue = [];
      } in
      if not (length mac == 6)
      then none
      else some (attach (record w { store = update w.store i link }) i)

  unfoldable pub enqueue : VirtualWire T → ℕ → Bytes → VirtualWire T
  enqueue w i frame = record w {
    store = update w.store i (record (w.store i) { queue = (w.store i).queue ++ frame ∷ [] });
  }

  -- Every other live endpoint.
  unfoldable pub peers_of : VirtualWire T → ℕ → List ℕ → List ℕ
  peers_of w sender [] = []
  peers_of w sender (i ∷ is) =
      let rest = peers_of w sender is in
      if not (i == sender) && (w.store i).is_up then i ∷ rest else rest

  -- A draw below the probability, which is asked for if it is not 0.
  abbrev pub happens : T → T → Bool
  happens probability draw = truthy probability && below draw probability

  -- The delay of a frame.
  unfoldable pub delay_of : FaultProfile T → Draws T → T
  delay_of f d =
      let delay =
        if below zero_float f.delay_high
        then ops.divide d.for_delay (ops.literal 1000 1)
        else zero_float in
      if happens f.reorder d.for_reorder then ops.plus delay (ops.literal 2 1000) else delay

  -- A copy to one peer, at once or when the delay, from the given time, has passed.
  unfoldable pub carry_one : VirtualWire T → ℕ → Bytes → T → T → VirtualWire T
  carry_one w i frame delay now = if ops.leq delay zero_float then enqueue w i frame else record w {
    pending = w.pending ++ record { due_at = ops.plus now delay; peer = i; frame = frame } ∷ [];
  }

  -- A copy to each; `clock k` is the time of the k-th.
  unfoldable pub carry_to : VirtualWire T → List ℕ → Bytes → T → (ℕ → T) → ℕ → VirtualWire T
  unfolding carry_one
  carry_to w [] frame delay clock k = w
  carry_to w (i ∷ is) frame delay clock k =
      carry_to (carry_one w i frame delay (clock k)) is frame delay clock (suc k)

  unfoldable pub show_frame : VirtualWire T → ℕ → Bytes → VirtualWire T
  show_frame w sender frame =
      if w.watched then record w { shown = w.shown ++ (sender, frame) ∷ [] } else w

  -- The part of `transmit` that comes after the loss.
  unfoldable pub carry : VirtualWire T → List ℕ → Bytes → Draws T → (ℕ → T) → VirtualWire T
  unfolding flip_one_bit
  carry w peers frame d clock =
      let corrupt = happens w.fault.corrupt d.for_corrupt in
      let twice = happens w.fault.duplicate d.for_duplicate in
      carry_to
        (record w {
          corrupted = if corrupt then w.corrupted + 1 else w.corrupted;
          duplicated = if twice then w.duplicated + 1 else w.duplicated;
        })
        (if twice then peers ++ peers else peers)
        (if corrupt then flip_one_bit frame d.index d.bit else frame) (delay_of w.fault d) clock 0

  unfoldable pub transmit : VirtualWire T → ℕ → Bytes → Draws T → (ℕ → T) → VirtualWire T
  unfolding show_frame
  transmit w sender frame d clock =
      let seen = show_frame w sender frame in
      let counted = record seen { transmitted = seen.transmitted + 1 } in
      let peers = peers_of w sender w.links in
      if is_empty peers
      then counted
      else if happens w.fault.loss d.for_loss
      then record counted { dropped = counted.dropped + 1 }
      else carry counted peers frame d clock

  -- The entries that are due, and the others, each in their order.
  unfoldable pub split_due : T → List (InFlight T) → List (InFlight T) × List (InFlight T)
  split_due now [] = ([], [])
  split_due now (e ∷ es) =
      let (due, rest) = split_due now es in
      if ops.leq e.due_at now then (e ∷ due, rest) else (due, e ∷ rest)

  unfoldable pub enqueue_all : VirtualWire T → List (InFlight T) → VirtualWire T
  enqueue_all w [] = w
  enqueue_all w (e ∷ es) = enqueue_all (enqueue w e.peer e.frame) es

  unfoldable pub pump : VirtualWire T → T → VirtualWire T
  unfolding split_due
  pump w now =
      let (due, rest) = split_due now w.pending in enqueue_all (record w { pending = rest }) due

  unfoldable pub reset_stats : VirtualWire T → VirtualWire T
  reset_stats w = record w { transmitted = 0; dropped = 0; duplicated = 0; corrupted = 0 }

  -- `none` is a LinkError.
  unfoldable pub send_frame : VirtualWire T → ℕ → Bytes → Draws T → (ℕ → T) → Option (VirtualWire T)
  send_frame w i frame d clock =
      if not (w.store i).on_wire
      then none
      else if not (w.store i).is_up
      then none
      else some (transmit w i frame d clock)

  -- self._queue.get_nowait(), where `none` is queue.Empty.
  unfoldable pub take_frame : VirtualWire T → ℕ → VirtualWire T × Option Bytes
  take_frame w i = elim (w.store i).queue [
    | [] ↦ (w, none)
    | frame ∷ frames ↦
        (record w { store = update w.store i (record (w.store i) { queue = frames }) }, some frame)
  ]

  -- One round of `recv_frame`: `pump`, then a look at the queue.
  unfoldable pub receive_round : VirtualWire T → ℕ → T → VirtualWire T × Option Bytes
  receive_round w i now = take_frame (if (w.store i).on_wire then pump w now else w) i

  -- `recv_frame`, with the times at which its rounds begin, until the deadline or the last time
  -- given. A round waits for nothing, since no other thread puts a frame into the queue.
  unfoldable pub recv_frame : VirtualWire T → ℕ → List T → VirtualWire T × Option Bytes
  recv_frame w i [] = (w, none)
  recv_frame w i (now ∷ later) =
      let (w', frame) = receive_round w i now in
      let rest = recv_frame w' i later in elim frame [ none ↦ rest | some f ↦ (w', some f) ]

  abbrev pub pending_frames : VirtualWire T → ℕ → ℕ
  pending_frames w i = length (w.store i).queue

  unfoldable pub drain : VirtualWire T → ℕ → VirtualWire T × List Bytes
  drain w i =
      (record w { store = update w.store i (record (w.store i) { queue = [] }) }, (w.store i).queue)

  unfoldable pub close : VirtualWire T → ℕ → VirtualWire T
  close w i =
      let down = record w { store = update w.store i (record (w.store i) { is_up = false }) } in
      if (w.store i).on_wire then detach down i else down
