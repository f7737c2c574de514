-- ===== src/Stack/Ping.antt =====
-- The answer to a ping (minitcp/stack.py, `_handle_icmp`).
use mini_tcp.Base.{◌+◌, ◌%◌, Bytes, []}
use mini_tcp.Time.{TimeOps}
use mini_tcp.Icmp
use mini_tcp.Icmp.{IcmpMessage, EchoMessage}
use mini_tcp.Ipv4.{Ipv4Packet}
use mini_tcp.Stack.{Stack}
use mini_tcp.Arp.Cache

-- The numbers of an echo message as their fields hold them.
abbrev in_fields : EchoMessage → EchoMessage
in_fields e = record e { identifier = e.identifier % 65536; sequence = e.sequence % 65536 }

module _ {T : Type 0} ⦃ops : TimeOps T⦄ where
  -- The stack after it has counted a ping.
  abbrev counted : Stack T → Stack T
  counted s = record s {
    stats = record s.stats { icmp_echo_replied = s.stats.icmp_echo_replied + 1 };
  }

  -- The datagram that carries an answer to the source of a datagram.
  abbrev pub reply_datagram : Stack T → Ipv4Packet → Bytes → Ipv4Packet
  reply_datagram s packet raw = record {
    src = s.ip;
    dst = packet.src;
    protocol = 1;
    payload = raw;
    ttl = 64;
    identification = s.next_id;
    flags = 0;
    fragment_offset = 0;
    dscp = 0;
    options = [];
  }
