-- ===== src/Lib.antt =====
-- mini-tcp is a TCP/IP stack in Python. This library models its TCP engine (minitcp/net/tcp), the packet
-- formats around it (minitcp/net) and the stack that joins them (minitcp/stack.py), and proves what makes
-- these parts correct.
--
-- The parts, and the files that model them:
--
-- * Sequence numbers (minitcp/net/tcp/seqno.py): Seqno.antt; Seqno/Order.antt compares them with the
--   positions of a stream that does not wrap. Masks are remainders.
-- * Reorder queue (minitcp/net/tcp/reorder.py): Reorder.antt, on a dictionary that is an association
--   list in insertion order (Reorder/Entries.antt).
-- * Send and receive queues (minitcp/net/tcp/buffer.py, `SendQueue` and `ReceiveQueue`): Send.antt and
--   Receive.antt. Send/Laws.antt, Receive/Stream.antt and Receive/Reads.antt state the queues against
--   the byte stream that they carry, a function from positions to bytes.
-- * Congestion control (minitcp/net/tcp/congestion.py): Congestion.antt.
-- * Retransmission timeout and queue (minitcp/net/tcp/retransmit.py): Retransmit.antt.
-- * Segments (minitcp/net/tcp/segment.py): Segment.antt as data, Segment/Options.antt the wire format of
--   the options, Segment/Codec.antt that of a segment.
-- * Network byte order, readers and writers (minitcp/util/byteio.py) and the Internet checksum
--   (minitcp/util/checksum.py): Wire.antt and its children.
-- * States (minitcp/net/tcp/state.py): State.antt.
-- * The connection (minitcp/net/tcp/connection.py, `TCPConnection`): Connection.antt holds its state;
--   Connection/Outbound.antt what it sends; Connection/Ack.antt acknowledgements and `_flush`;
--   Connection/Inbound.antt `on_segment` and its handlers; Connection/Timers.antt `on_tick`;
--   Connection/Application.antt the calls of the application. The other children prove properties.
-- * Two connections that talk over a network which loses, repeats, delays and reorders: Delivery.antt.
--   Delivery/System.antt runs them; the other children follow the two byte streams through every handler
--   of TCPConnection. `close` is left out there, since it gives the FIN the number of an unsent byte.
-- * IPv4 (minitcp/net/ipv4.py): Ipv4.antt the header, Ipv4/Fragment.antt `fragment`,
--   Ipv4/Reassembly.antt `Reassembler`, Ipv4/Address.antt netmasks. Ipv4/Pieces.antt, Ipv4/Rebuilt.antt,
--   Ipv4/Complete.antt and Ipv4/EndToEnd.antt prove what is rebuilt, and when.
-- * UDP, ICMP, Ethernet and ARP (minitcp/net/udp.py, icmp.py, ethernet.py, arp.py): Udp.antt, Icmp.antt,
--   Ethernet.antt and Arp.antt, with `ARPCache` in Arp/Cache.antt.
-- * The simulated wire (minitcp/link/simulated.py): Link.antt, with a store of the endpoints that a wire
--   connects. What the random generator draws and the clock shows are arguments.
-- * The stack (minitcp/stack.py, `Stack`): Stack.antt holds its state, ports and identifications;
--   Stack/Outbound.antt sends, Stack/Inbound.antt takes frames apart, Stack/Tcp.antt runs connections and
--   timers, and Stack/Api.antt is what the application calls. A connection does its step first, and the
--   stack then carries out the calls in its log.
-- * Sockets (minitcp/socket.py): Socket.antt, Socket/Calls.antt for the calls made of others, and
--   Socket/Loops.antt and Socket/Feeding.antt for what the loops of `send` and `recv` achieve. What
--   other threads do to a connection while a call waits for it is an argument.
--
-- A connection owns one of each queue, the congestion control and the estimator. It hands the segments
-- of Segment.antt to its `transmit` argument; these calls, and those of the hooks, are values of
-- `Effect`, kept in a log. An operation that changes an object returns the new object; an exception is
-- `none`. Numbers are natural numbers, and a signed distance is an integer. A method keeps its name,
-- without the underscore; `listen` is `start_listening`, since `listen` is a state.
--
-- Times are floats in the source. They are a type with operations here, and the laws that a theorem needs
-- are named in Time.antt. The random initial sequence number is an argument.
--
-- Loops: `_accept` takes parked payloads while the next one is there; each round removes an entry, so
-- one round more than the number of entries is enough fuel. `_flush` sends a byte or more of the
-- buffer in each round, so one round more than the buffer's length is enough. The parser of options
-- takes a byte or more in each round, and folding a checksum makes the sum smaller in each round, so
-- the length and the sum are enough.
--
-- The loop of `fragment` takes a byte or more of the payload in each round, so the payload's length is
-- enough. `_allocate_port` has its own bound.
--
-- The theorem on two connections needs streams of less than 2 ^ 31 bytes, so that sequence numbers
-- stand for positions without doubt.
--
-- Not modelled: a hook that calls back into the connection while the connection handles a segment; in the
-- stack, its thread, its locks, the events that a caller waits for, what `tcp_accept` does
-- while it waits, and what `tcp_connect` does after it has sent the SYN; errors of the link; addresses as
-- text; in sockets the options, and what the stack raises while `close` closes a connection; the
-- threads that share a simulated wire; the TUN device (minitcp/link/tun.py); capture files and printing.
mod Base
pub mod Seqno
pub mod Reorder
pub mod Send
pub mod Receive
pub mod State
pub mod Time
pub mod Congestion
pub mod Retransmit
pub mod Wire
pub mod Segment
pub mod Udp
pub mod Icmp
pub mod Ethernet
pub mod Ipv4
pub mod Arp
pub mod Connection
pub mod Delivery
pub mod Link
pub mod Stack
pub mod Socket
mod Witnesses
