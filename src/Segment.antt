-- ===== src/Segment.antt =====
-- TCP segments and their options as data (minitcp/net/tcp/segment.py).
pub mod Options
pub mod OptionsParts
pub mod OptionsRoundTrip
pub mod Codec
pub mod RoundTrip
use Prim.Native.Nat.{bit_and}
use mini_tcp.Base.{
  ℕ, ◌+◌, ◌%◌, Bool, true, false, not, ◌&&◌, Option, none, some, List, [], ◌==◌, ◌||◌,
  if◌then◌else◌, Bytes, length, is_empty,
}
use mini_tcp.Seqno.{seq_space, seq_ge}

abbrev pub flag_fin : ℕ
flag_fin = 0x001

abbrev pub flag_syn : ℕ
flag_syn = 0x002

abbrev pub flag_rst : ℕ
flag_rst = 0x004

abbrev pub flag_psh : ℕ
flag_psh = 0x008

abbrev pub flag_ack : ℕ
flag_ack = 0x010

abbrev pub flag_urg : ℕ
flag_urg = 0x020

-- bool(flags & mask)
abbrev pub has_flag : ℕ → ℕ → Bool
has_flag flags mask = not (bit_and flags mask == 0)

abbrev pub count_if : Bool → ℕ
count_if b = if b then 1 else 0

pub record TcpOptions : Type 0 where
  pub mss : Option ℕ
  pub window_scale : Option ℕ
  pub sack_permitted : Bool
  pub sack_blocks : List (ℕ × ℕ)
  pub timestamp : Option ℕ
  pub timestamp_echo : Option ℕ

abbrev pub no_options : TcpOptions
no_options = record {
  mss = none;
  window_scale = none;
  sack_permitted = false;
  sack_blocks = [];
  timestamp = none;
  timestamp_echo = none;
}

abbrev pub is_some {ℓ} : {A : Type ℓ} → Option A → Bool
is_some none = false
is_some (some a) = true

unfoldable pub options_is_empty : TcpOptions → Bool
options_is_empty o = not (
    is_some o.mss
    || (is_some o.window_scale
        || (o.sack_permitted || (not (is_empty o.sack_blocks) || is_some o.timestamp))))

pub record TcpSegment : Type 0 where
  pub src_port : ℕ
  pub dst_port : ℕ
  pub seq : ℕ
  pub ack : ℕ
  pub flags : ℕ
  pub window : ℕ
  pub payload : Bytes
  pub options : TcpOptions
  pub urgent_pointer : ℕ
  pub checksum : ℕ

unfoldable pub is_syn : TcpSegment → Bool
is_syn s = has_flag s.flags flag_syn

unfoldable pub is_ack : TcpSegment → Bool
is_ack s = has_flag s.flags flag_ack

unfoldable pub is_fin : TcpSegment → Bool
is_fin s = has_flag s.flags flag_fin

unfoldable pub is_rst : TcpSegment → Bool
is_rst s = has_flag s.flags flag_rst

unfoldable pub is_psh : TcpSegment → Bool
is_psh s = has_flag s.flags flag_psh

unfoldable pub is_urg : TcpSegment → Bool
is_urg s = has_flag s.flags flag_urg

-- SYN and FIN take one sequence number each.
unfoldable pub seq_len : TcpSegment → ℕ
seq_len s = length s.payload + count_if (is_syn s) + count_if (is_fin s)

unfoldable pub seq_end : TcpSegment → ℕ
seq_end s = (s.seq + seq_len s) % seq_space

-- Whether the segment's ACK covers `seq`.
unfoldable pub acknowledges : TcpSegment → ℕ → Bool
acknowledges s seq = is_ack s && seq_ge s.ack seq
