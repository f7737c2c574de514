-- ===== src/Stack.antt =====
-- The protocol stack (minitcp/stack.py, `Stack`): its state, and how it hands out identifiers and
-- ports. Dictionaries are association lists in insertion order. The thread, the locks and the events
-- that wake a waiting caller are not modelled, and the time of a step is an argument.
pub mod Outbound
pub mod Tcp
pub mod Inbound
pub mod Api
pub mod Keeps
pub mod Numbers
pub mod Pending
pub mod Flush
pub mod Quiet
pub mod Ping
use mini_tcp.Base.{
  ℕ, zero, suc, ◌+◌, ◌-◌, ◌%◌, Bool, true, false, ◌&&◌, ◌||◌, Option, none, some, List, [], ◌∷◌,
  ltb, ◌==◌, if◌then◌else◌, Bytes, same_bytes,
}
use mini_tcp.Connection.{Connection}
use mini_tcp.Ipv4.{Ipv4Packet}
use mini_tcp.Ipv4.Reassembly.{Reassembler}
use mini_tcp.Arp.Cache.{ArpCache}

abbrev pub first_ephemeral_port : ℕ
first_ephemeral_port = 49152

abbrev pub last_ephemeral_port : ℕ
last_ephemeral_port = 65535

-- The key of a connection.
pub record FourTuple : Type 0 where
  pub local_ip : Bytes
  pub local_port : ℕ
  pub remote_ip : Bytes
  pub remote_port : ℕ

unfoldable pub same_tuple : FourTuple → FourTuple → Bool
same_tuple a b =
    (same_bytes a.local_ip b.local_ip && (a.local_port == b.local_port))
    && (same_bytes a.remote_ip b.remote_ip && (a.remote_port == b.remote_port))

-- A connection in the table. A child of a listener is forgotten when it closes; the hook of a
-- connection that was opened actively does not touch the table.
pub record Registered (T : Type 0) : Type 0 where
  pub connection : Connection T
  pub is_child : Bool

-- The counters that the modelled operations change.
pub record Stats : Type 0 where
  pub frames_out : ℕ
  pub frames_dropped : ℕ
  pub ipv4_in : ℕ
  pub ipv4_out : ℕ
  pub arp_requests_sent : ℕ
  pub arp_replies_sent : ℕ
  pub icmp_echo_replied : ℕ
  pub tcp_in : ℕ
  pub tcp_out : ℕ
  pub udp_in : ℕ
  pub udp_out : ℕ
  pub malformed : ℕ
  pub errors : ℕ

-- A call of a UDP handler.
pub record Datagram : Type 0 where
  pub port : ℕ
  pub payload : Bytes
  pub src_ip : Bytes
  pub src_port : ℕ

pub record Stack (T : Type 0) : Type 0 where
  pub mac : Bytes
  pub ip : Bytes
  pub netmask : Bytes
  pub gateway : Option Bytes
  pub promiscuous : Bool
  pub receive_capacity : ℕ
  pub max_arp_pending : ℕ
  pub arp_cache : ArpCache T
  pub reassembler : Reassembler T
  pub connections : List (FourTuple × Registered T)
  pub listeners : List (ℕ × Connection T)
  -- The children of each listening port, oldest first, by their keys.
  pub accept_queues : List (ℕ × List FourTuple)
  -- The ports with a handler.
  pub udp_handlers : List ℕ
  pub arp_pending : List (Bytes × List Ipv4Packet)
  pub next_port : ℕ
  pub next_id : ℕ
  pub stats : Stats
  -- The frames given to the link and the calls of the handlers, newest first.
  pub link_out : List Bytes
  pub handled : List Datagram

unfoldable pub next_port_after : ℕ → ℕ
next_port_after port = if ltb last_ephemeral_port (port + 1) then first_ephemeral_port else port + 1

module _ {T : Type 0} where
  -- The identification for the next datagram; it is never zero.
  unfoldable pub allocate_id : Stack T → Stack T × ℕ
  allocate_id s =
      let next = (s.next_id + 1) % 65536 in
      (record s { next_id = if next == 0 then 1 else next }, s.next_id)

  unfoldable pub has_listener : ℕ → List (ℕ × Connection T) → Bool
  has_listener port [] = false
  has_listener port ((p, c) ∷ m) = (p == port) || has_listener port m

  unfoldable pub has_local_port : ℕ → List (FourTuple × Registered T) → Bool
  has_local_port port [] = false
  has_local_port port ((key, c) ∷ m) = (key.local_port == port) || has_local_port port m

  unfoldable pub port_in_use : Stack T → ℕ → Bool
  unfolding has_listener has_local_port
  port_in_use s port = has_listener port s.listeners || has_local_port port s.connections

  -- The loop, for so many tries; `none` is the StackError.
  unfoldable pub try_ports : ℕ → Stack T → Stack T × Option ℕ
  unfolding next_port_after port_in_use
  try_ports zero s = (s, none)
  try_ports (suc tries) s =
      let moved = record s { next_port = next_port_after s.next_port } in
      let rest = try_ports tries moved in
      if port_in_use s s.next_port then rest else (moved, some s.next_port)

  unfoldable pub allocate_port : Stack T → Stack T × Option ℕ
  unfolding try_ports
  allocate_port s = try_ports (last_ephemeral_port - first_ephemeral_port) s
