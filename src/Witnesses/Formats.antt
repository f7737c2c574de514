-- ===== src/Witnesses/Formats.antt =====
-- Wire formats on concrete inputs.
use mini_tcp.Base.{◌≡◌, refl, true, none, some, [], ◌∷◌, ◌++◌, Bytes}
use mini_tcp.Wire.{pack_16}
use mini_tcp.Wire.Writer
use mini_tcp.Wire.Writer.{Writer, bytes, size}
use mini_tcp.Wire.RoundTrip.{get, put, get-put, two_bytes}
use mini_tcp.Wire.Checksum.{checksum, verify}
use mini_tcp.Wire.Verify.{checksum-verify}
use mini_tcp.Segment.{TcpOptions}
use mini_tcp.Segment.Options.{
  to_bytes, parse, mss_bytes, scale_bytes, finish, sack_permitted_bytes, timestamp_bytes,
  sack_bytes, padding,
}
use mini_tcp.Segment.OptionsRoundTrip.{as_read, parse-to_bytes}

checksum-verify_example :
    verify (
      (69 ∷ 200 ∷ [])
      ++ (pack_16 (checksum ((69 ∷ 200 ∷ []) ++ (0 ∷ 0 ∷ 255 ∷ 254 ∷ 7 ∷ [])))
          ++ (255 ∷ 254 ∷ 7 ∷ [])))
    ≡ true
checksum-verify_example = checksum-verify (69 ∷ 200 ∷ []) (255 ∷ 254 ∷ 7 ∷ []) refl

-- A writer that holds one byte, and the one after 4660 was written.
abbrev before : Writer
before = record { parts = (9 ∷ []) ∷ [] }

abbrev after : Writer
after = record { parts = (9 ∷ []) ∷ (18 ∷ 52 ∷ []) ∷ [] }

written : put two_bytes before 4660 ≡ some after
unfolding Writer.u16 Writer.checked Writer.raw put
written = refl

get-put_example :
    get two_bytes (record { contents = bytes after ++ (1 ∷ []); pos = size before })
    ≡ some (record { contents = bytes after ++ (1 ∷ []); pos = size after }, 4660)
get-put_example = get-put two_bytes before after 4660 (1 ∷ []) written

abbrev all_options : TcpOptions
all_options = record {
  mss = some 1460;
  window_scale = some 7;
  sack_permitted = true;
  sack_blocks = (1, 5) ∷ [];
  timestamp = some 4294967297;
  timestamp_echo = none;
}

abbrev all_options_bytes : Bytes
all_options_bytes =
    2 ∷ 4 ∷ 5 ∷ 180 ∷ 4 ∷ 2 ∷ 3 ∷ 3 ∷ 7 ∷ 8 ∷ 10 ∷ 0 ∷ 0 ∷ 0 ∷ 1 ∷ 0 ∷ 0 ∷ 0 ∷ 0 ∷ 5 ∷ 10 ∷ 0 ∷ 0
    ∷ 0 ∷ 1 ∷ 0 ∷ 0 ∷ 0 ∷ 5 ∷ 1 ∷ 1 ∷ 1 ∷ []

printed : to_bytes all_options ≡ some all_options_bytes
unfolding to_bytes mss_bytes scale_bytes finish sack_permitted_bytes timestamp_bytes sack_bytes
    padding
printed = refl

parse-to_bytes_example : parse all_options_bytes ≡ as_read all_options
parse-to_bytes_example = parse-to_bytes all_options all_options_bytes printed
