-- ===== src/Rpc/Frame/RoundTrip.antt =====
-- What one side writes the other side reads (supervice/rpc.py and supervice/client.py).
use supervice.Prelude.{
  ℕ, zero, suc, ◌+◌, ◌*◌, ◌/◌, ◌%◌, ◌≤◌, ◌<◌, ◌≡◌, refl, sym, ap, ◌∙◌, Bool, true, false, Option,
  none, some, List, [], ◌∷◌, ◌++◌, arith, ltb, ◌==◌, length, take, drop, length-append, length-take,
  take-append, take-append-drop, drop-append_length, if◌then◌else◌,
}
use supervice.Rpc.Frame.{
  header_size, max_message_size, pack, unpack, readexactly, message, incomplete, receive_header,
  receive_length, receive_body, read_message, write_message,
}

-- The header of a body that is not too long for one.
abbrev pub header : ℕ → List ℕ
header n = n / 16777216 ∷ n / 65536 % 256 ∷ n / 256 % 256 ∷ n % 256 ∷ []

unpack-header : (n : ℕ) → n < 4294967296 → unpack (header n) ≡ n
unfolding unpack
unpack-header n h = omega arith

pack-header : (n : ℕ) → n < 4294967296 → pack n ≡ some (header n)
unfolding pack
pack-header n h = ground arith

readexactly-append : (xs ys : List ℕ) → readexactly (length xs) (xs ++ ys) ≡ some (xs, ys)
unfolding readexactly
readexactly-append xs ys =
    let enough : ltb (length (xs ++ ys)) (length xs) ≡ false =
      ground (arith, length-append xs ys) in
    rw (enough, take-append xs ys, drop-append_length xs ys) refl

readexactly-short : (n : ℕ) (s : List ℕ) → length s < n → readexactly n s ≡ none
unfolding readexactly
readexactly-short n s h = ground arith

read_message-header :
    (n : ℕ) (rest : List ℕ)
    → n < 4294967296
    → read_message (header n ++ rest) ≡ receive_length n rest
unfolding read_message receive_header
read_message-header n rest h = rw (readexactly-append (header n) rest, unpack-header n h) refl

receive_length-append :
    (body rest : List ℕ)
    → length body ≤ max_message_size
    → receive_length (length body) (body ++ rest) ≡ message body rest
unfolding receive_length receive_body
receive_length-append [] rest h = ground arith
receive_length-append (b ∷ bs) rest h =
    let small : ltb max_message_size (suc (length bs)) ≡ false = ground arith in
    let some_bytes : (suc (length bs) == 0) ≡ false = ground arith in
    rw (small, some_bytes, readexactly-append (b ∷ bs) rest) refl

-- A body within the bound is written as a frame, and whatever follows the frame on the stream, the
-- other side reads the body and leaves what follows.
pub read_message-write_message :
    (body rest : List ℕ)
    → length body ≤ max_message_size
    → (frame : List ℕ) × (write_message body ≡ some frame)
      × (length frame ≡ header_size + length body)
      × (read_message (frame ++ rest) ≡ message body rest)
unfolding write_message
read_message-write_message body rest h = (
  header (length body) ++ body,
  rw (pack-header (length body) (omega arith)) refl,
  length-append (header (length body)) body,
  read_message-header (length body) (body ++ rest) (omega arith)
      ∙ receive_length-append body rest h,
)

receive_length-short :
    (n : ℕ) (s : List ℕ) → length s < n → n ≤ max_message_size → receive_length n s ≡ incomplete
unfolding receive_length receive_body
receive_length-short n s h l =
    let small : ltb max_message_size n ≡ false = ground arith in
    let some_bytes : (n == 0) ≡ false = ground arith in
    rw (small, some_bytes, readexactly-short n s h) refl

read_message-short : (s : List ℕ) → length s < 4 → read_message s ≡ incomplete
unfolding read_message receive_header
read_message-short s h = rw (readexactly-short 4 s h) refl

read_message-cut :
    (n k : ℕ) (body : List ℕ)
    → length body ≡ n
    → n ≤ max_message_size
    → k < 4 + n
    → read_message (take k (header n ++ body)) ≡ incomplete
read_message-cut n zero body e l h = read_message-short [] (omega arith)
read_message-cut n (suc zero) body e l h = read_message-short (_ ∷ []) (omega arith)
read_message-cut n (suc (suc zero)) body e l h = read_message-short (_ ∷ _ ∷ []) (omega arith)
read_message-cut n (suc (suc (suc zero))) body e l h =
    read_message-short (_ ∷ _ ∷ _ ∷ []) (omega arith)
read_message-cut n (suc (suc (suc (suc k)))) body e l h =
    read_message-header n (take k body) (omega arith)
    ∙ receive_length-short n (take k body) (omega (arith, length-take k body)) l

-- A frame within the bound that is cut short anywhere, in its header or in its body, is read as
-- incomplete, never as a shorter message.
pub read_message-take :
    (body frame : List ℕ) (k : ℕ)
    → length body ≤ max_message_size
    → write_message body ≡ some frame
    → k < length frame
    → read_message (take k frame) ≡ incomplete
unfolding write_message
read_message-take body frame k h w l =
    let n : ℕ = length body in
    let e : write_message body ≡ some (header n ++ body) = rw (pack-header n (omega arith)) refl in
    let f : header n ++ body ≡ frame = cc in
    let g : length frame ≡ 4 + n = sym (ap length f) ∙ length-append (header n) body in
    sym (ap (λ (s : List ℕ). read_message (take k s)) f)
    ∙ read_message-cut n k body refl h (omega arith)

-- The stream begins with four bytes that give the length of the body, which is at most 1 MiB, with
-- the whole body after them, and with `rest` after that.
abbrev pub IsFramed : List ℕ → List ℕ → List ℕ → Type 0
IsFramed stream body rest =
    (a : ℕ) × (b : ℕ) × (c : ℕ) × (d : ℕ) × (stream ≡ a ∷ b ∷ c ∷ d ∷ (body ++ rest))
    × (length body ≡ a * 16777216 + b * 65536 + c * 256 + d)
    × (length body ≤ 1048576)

-- How `readexactly` ends, by whether the stream is too short.
taken : Bool → ℕ → List ℕ → Option (List ℕ × List ℕ)
taken short n s = if short then none else some (take n s, drop n s)

taken-message :
    (short : Bool) (n : ℕ) (s body rest : List ℕ)
    → ltb (length s) n ≡ short
    → receive_body (taken short n s) ≡ message body rest
    → (s ≡ body ++ rest) × (length body ≡ n)
unfolding receive_body taken
taken-message true n s body rest e h = cc
taken-message false n s body rest e h =
    let same : take n s ≡ body = cc in
    let left : drop n s ≡ rest = cc in
    let enough : n ≤ length s = ground arith in
    (
      sym (take-append-drop n s) ∙ rw (same, left) refl,
      omega (arith, ap length same, length-take n s),
    )

receive_body-message :
    (n : ℕ) (s body rest : List ℕ)
    → receive_body (readexactly n s) ≡ message body rest
    → (s ≡ body ++ rest) × (length body ≡ n)
unfolding readexactly taken
receive_body-message n s body rest h = taken-message (ltb (length s) n) n s body rest refl h

receive_length-message :
    (n : ℕ) (s body rest : List ℕ)
    → receive_length n s ≡ message body rest
    → (s ≡ body ++ rest) × (length body ≡ n) × (n ≤ 1048576)
unfolding receive_length
receive_length-message n s body rest h = ground (arith, receive_body-message n s body rest)

-- A message that is read was framed so.
pub read_message-IsFramed :
    (stream body rest : List ℕ)
    → read_message stream ≡ message body rest
    → IsFramed stream body rest
unfolding read_message receive_header unpack
read_message-IsFramed [] body rest h = cc
read_message-IsFramed (a ∷ []) body rest h = cc
read_message-IsFramed (a ∷ b ∷ []) body rest h = cc
read_message-IsFramed (a ∷ b ∷ c ∷ []) body rest h = cc
read_message-IsFramed (a ∷ b ∷ c ∷ d ∷ s) body rest h =
    let k : receive_length (a * 16777216 + b * 65536 + c * 256 + d) s ≡ message body rest =
      sym (ap receive_header (readexactly-append (a ∷ b ∷ c ∷ d ∷ []) s)) ∙ h in
    let (e, l, small) = receive_length-message _ s body rest k in
    (a, b, c, d, ap (λ (s : List ℕ). a ∷ b ∷ c ∷ d ∷ s) e, l, omega arith)
