-- ===== src/Wire/RoundTrip.antt =====
-- Reading back what was written (minitcp/util/byteio.py).
use mini_tcp.Base.{
  ℕ, ◌+◌, ◌^◌, ◌<◌, ◌≡◌, refl, sym, ap, ◌∙◌, Option, some, List, [], ◌∷◌, ◌++◌, arith, Bytes,
  length, length-append, drop-append_length, append_assoc, append-nil,
}
use mini_tcp.Wire.{pack_8, pack_16, pack_32, unpack_8, unpack_16, unpack_32}
use mini_tcp.Wire.Reader
use mini_tcp.Wire.Reader.{Reader, advance}
use mini_tcp.Wire.Writer
use mini_tcp.Wire.Writer.{Writer, checked, bytes, join, total, size}

-- The widths of the numbers that are read and written.
pub data Width : Type 0 where
  one_byte two_bytes four_bytes : Width

unfoldable pub put : Width → Writer → ℕ → Option Writer
put one_byte w n = Writer.u8 w n
put two_bytes w n = Writer.u16 w n
put four_bytes w n = Writer.u32 w n

pub get : Width → Reader → Option (Reader × ℕ)
get one_byte r = Reader.u8 r
get two_bytes r = Reader.u16 r
get four_bytes r = Reader.u32 r

join-append : (parts : List Bytes) (part : Bytes) → join (parts ++ part ∷ []) ≡ join parts ++ part
unfolding join
join-append [] part = append-nil part
join-append (p ∷ parts) part =
    ap (◌++◌ p) (join-append parts part) ∙ sym (append_assoc p (join parts) part)

size_lem : (parts : List Bytes) → total parts ≡ length (join parts)
unfolding total join
size_lem [] = refl
size_lem (p ∷ parts) = omega (arith, size_lem parts, length-append p (join parts))

-- Reading a field that stands at the position.
advance_lem :
    {A : Type 0} (front packed back : Bytes) (decode : Bytes → A)
    → advance
        (record { contents = front ++ (packed ++ back); pos = length front })
        (length packed)
        decode
      ≡ some (
        record { contents = front ++ (packed ++ back); pos = length front + length packed },
        decode (packed ++ back),
      )
unfolding advance
advance_lem front packed back decode = ground (
  arith,
  length-append front (packed ++ back),
  length-append packed back,
  drop-append_length front (packed ++ back),
)

-- What `checked` returns holds the packed number behind the rest.
checked_lem :
    (w w' : Writer) (n bits : ℕ) (packed : Bytes)
    → checked w n bits packed ≡ some w'
    → (bytes w' ≡ bytes w ++ packed) × (size w' ≡ size w + length packed) × (n < 2 ^ bits)
unfolding checked Writer.raw bytes size
checked_lem w w' n bits packed h = ground (
  arith,
  join-append w.parts packed,
  size_lem (w.parts ++ packed ∷ []),
  size_lem w.parts,
  length-append (join w.parts) packed,
)

read_back :
    (w w' : Writer) (n bits : ℕ) (packed back : Bytes) (decode : Bytes → ℕ)
    → checked w n bits packed ≡ some w'
    → decode (packed ++ back) ≡ n
    → advance (record { contents = bytes w' ++ back; pos = size w }) (length packed) decode
      ≡ some (record { contents = bytes w' ++ back; pos = size w' }, n)
read_back w w' n bits packed back decode h decoded =
    let (written, moved, small) = checked_lem w w' n bits packed h in
    let place : length (bytes w) ≡ size w = unfold bytes size in sym (size_lem w.parts) in
    rw (written, moved, append_assoc (bytes w) packed back, sym place)
      (advance_lem (bytes w) packed back decode
        ∙ ap
            (λ m. some (
              record {
                contents = bytes w ++ (packed ++ back);
                pos = length (bytes w) + length packed;
              },
              m,
            ))
            decoded)

-- A number that the writer accepts is what the reader reads at the place where it was written,
-- whatever follows, and the reader is then where the writer was.
pub get-put :
    (width : Width) (w w' : Writer) (n : ℕ) (back : Bytes)
    → put width w n ≡ some w'
    → get width (record { contents = bytes w' ++ back; pos = size w })
      ≡ some (record { contents = bytes w' ++ back; pos = size w' }, n)
unfolding put get Writer.u8 Writer.u16 Writer.u32 Reader.u8 Reader.u16 Reader.u32 size
get-put one_byte w w' n back h = read_back w w' n 8 (pack_8 n) back unpack_8 h refl
get-put two_bytes w w' n back h = read_back w w' n 16 (pack_16 n) back unpack_16 h (omega arith)
get-put four_bytes w w' n back h =
    let small = (checked_lem w w' n 32 (pack_32 n) h).2 in
    read_back w w' n 32 (pack_32 n) back unpack_32 h (omega (arith, small))
