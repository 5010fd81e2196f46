-- ===== src/Rpc/Frame.antt =====
-- The framing of messages (supervice/rpc.py and supervice/client.py, `_read_message` and
-- `_write_message`): a body, after its length as four bytes, the highest first. A stream is the list
-- of the bytes that are still to come before its end.
pub mod RoundTrip
use supervice.Prelude.{
  ℕ, zero, suc, ◌+◌, ◌-◌, ◌*◌, ◌/◌, ◌%◌, ◌≤◌, ◌<◌, ◌≡◌, refl, sym, ap, ◌∙◌, Bool, true, false,
  Option, none, some, List, [], ◌∷◌, ◌++◌, arith, ltb, ◌==◌, if◌then◌else◌, length, take, drop,
  length-append, length-take, append_assoc, take-append, drop-append_length,
}

abbrev pub header_size : ℕ
header_size = 4

abbrev pub max_message_size : ℕ
max_message_size = 1024 * 1024

-- struct.pack(">I", n): `none` is its error, for a number that has no 32 bits.
unfoldable pub pack : ℕ → Option (List ℕ)
pack n =
    if ltb n 4294967296
    then some (n / 16777216 ∷ n / 65536 % 256 ∷ n / 256 % 256 ∷ n % 256 ∷ [])
    else none

-- struct.unpack(">I", header): the header has four bytes.
unfoldable pub unpack : List ℕ → ℕ
unpack (a ∷ b ∷ c ∷ d ∷ []) = a * 16777216 + b * 65536 + c * 256 + d
unpack _ = 0

-- reader.readexactly(n): what was read and what is still to come, or `none`, for IncompleteReadError.
unfoldable pub readexactly : ℕ → List ℕ → Option (List ℕ × List ℕ)
readexactly n s = if ltb (length s) n then none else some (take n s, drop n s)

-- How `_read_message` ends: with a body, by IncompleteReadError, or by the ValueError on a length
-- above the bound.
pub data Received : Type 0 where
  message : List ℕ → List ℕ → Received
  incomplete : Received
  too_large : ℕ → List ℕ → Received

receive_body : Option (List ℕ × List ℕ) → Received
receive_body none = incomplete
receive_body (some (body, rest)) = message body rest

receive_length : ℕ → List ℕ → Received
unfolding receive_body readexactly
receive_length n rest =
    if ltb max_message_size n
    then too_large n rest
    else (if n == 0 then message [] rest else receive_body (readexactly n rest))

receive_header : Option (List ℕ × List ℕ) → Received
unfolding receive_length unpack
receive_header none = incomplete
receive_header (some (header, rest)) = receive_length (unpack header) rest

-- `_read_message`
unfoldable pub read_message : List ℕ → Received
unfolding receive_header readexactly
read_message s = receive_header (readexactly header_size s)

with_header : List ℕ → Option (List ℕ) → Option (List ℕ)
with_header body none = none
with_header body (some header) = some (header ++ body)

-- What `_write_message` puts on the stream.
unfoldable pub write_message : List ℕ → Option (List ℕ)
unfolding with_header pack
write_message body = with_header body (pack (length body))
