-- ===== src/Cast/Channel/Framing.antt =====
-- Frames of src/cast/channel: what `send` writes, `read_one` reads.
use rockcast.Prelude.{
  ℕ, zero, suc, ◌%◌, ◌<◌, ◌≤◌, false, List, [], ◌∷◌, ◌++◌, map, length, length-append, ltb, ltb-ge,
  ◌≡◌, ◌≢◌, refl, ap, ◌∙◌, arith, append_assoc, if◌then◌else◌,
}
use rockcast.Cast.Proto.{CastMessage, encode}
use rockcast.Cast.Proto.Encode.{MessageIsValid, decode-encode}
use rockcast.Cast.Channel.{
  timed_out, got, error, Event, byte, lull, frame_header, length_of_header, framed, read_exact,
  max_message, decoded, body_read, head_read, read_one, is_loggable, after_logging, crashed,
}

-- The bytes of a frame with nothing between them.
abbrev pub wire : List ℕ → List Event
wire bytes = map byte bytes

wire-append : (xs ys : List ℕ) → wire (xs ++ ys) ≡ wire xs ++ wire ys
wire-append [] ys = refl
wire-append (x ∷ xs) ys = ap (λ (l : List Event). byte x ∷ l) (wire-append xs ys)

read_exact-wire :
    (bytes : List ℕ) (rest : List Event)
    → read_exact (length bytes) (wire bytes ++ rest) ≡ (got bytes, rest)
unfolding read_exact
read_exact-wire [] rest = refl
read_exact-wire (b ∷ bytes) rest = rw (read_exact-wire bytes rest) refl

read_exact_torn :
    (bytes : List ℕ) (n : ℕ) (rest : List Event)
    → length bytes < n
    → read_exact n (wire bytes ++ (lull ∷ rest)) ≡ (error timed_out, rest)
unfolding read_exact
read_exact_torn bytes zero rest h = absurd (omega arith)
read_exact_torn [] (suc n) rest h = refl
read_exact_torn (b ∷ bytes) (suc n) rest h = rw (read_exact_torn bytes n rest (omega arith)) refl

length_of_header-frame_header :
    (len : ℕ) → len < 4294967296 → length_of_header (frame_header len) ≡ len
unfolding length_of_header frame_header
length_of_header-frame_header len h = omega arith

read_exact-frame_header :
    (len : ℕ) (rest : List Event)
    → read_exact 4 (wire (frame_header len) ++ rest) ≡ (got (frame_header len), rest)
unfolding frame_header
read_exact-frame_header len rest = read_exact-wire (frame_header len) rest

small_header :
    (len : ℕ) → len ≤ max_message → length_of_header (frame_header (len % 4294967296)) ≡ len
small_header len h =
    let e : len % 4294967296 ≡ len = omega arith in
    rw e (length_of_header-frame_header len (omega arith))

read_one_body :
    (len : ℕ) (rest : List Event)
    → len ≤ max_message
    → read_one (wire (frame_header (len % 4294967296)) ++ rest) ≡ body_read (read_exact len rest)
unfolding read_one head_read
read_one_body len rest h =
    let big : ltb max_message len ≡ false = ltb-ge max_message len h in
    ap head_read (read_exact-frame_header (len % 4294967296) rest)
    ∙ rw (head_read, small_header len h, big) refl

frame_split :
    (m : CastMessage) (rest : List Event)
    → (wire (framed m) ++ rest)
      ≡ (wire (frame_header (length (encode m) % 4294967296)) ++ (wire (encode m) ++ rest))
unfolding framed
frame_split m rest =
    ap (λ (l : List Event). l ++ rest)
      (wire-append (frame_header (length (encode m) % 4294967296)) (encode m))
    ∙ append_assoc (wire (frame_header (length (encode m) % 4294967296))) (wire (encode m)) rest

-- A message whose texts are UTF-8 and which takes at most 2 MiB is read as it was sent, unless its payload is a text
-- of more than 120 bytes whose byte 120 continues a character: then, with the log level that the program sets by default,
-- the read panics. In both cases the bytes behind the frame are left.
pub read_one-framed :
    (m : CastMessage) (rest : List Event)
    → MessageIsValid m
    → length (encode m) ≤ max_message
    → read_one (wire (framed m) ++ rest)
      ≡ ((if is_loggable m.payload then got m else crashed), rest)
unfolding body_read decoded after_logging
read_one-framed m rest v h =
    ap read_one (frame_split m rest)
    ∙ (read_one_body (length (encode m)) (wire (encode m) ++ rest) h
        ∙ (ap body_read (read_exact-wire (encode m) rest) ∙ rw (decode-encode m v) refl))

longer : (xs ys : List ℕ) → ys ≢ [] → length xs < length (xs ++ ys)
longer xs [] h = absurd (h refl)
longer xs (y ∷ ys) h = omega (arith, length-append xs (y ∷ ys))

-- If a read times out inside the body of such a frame, the part of the frame that has been read is
-- lost: what is left to read begins in the middle of the body.
pub read_one_torn :
    (m : CastMessage) (before after : List ℕ) (rest : List Event)
    → length (encode m) ≤ max_message
    → encode m ≡ before ++ after
    → after ≢ []
    → read_one (
        wire (frame_header (length (encode m) % 4294967296))
        ++ (wire before ++ (lull ∷ (wire after ++ rest))))
      ≡ (error timed_out, wire after ++ rest)
unfolding body_read
read_one_torn m before after rest h e more =
    let short : length before < length (encode m) = rw e (longer before after more) in
    read_one_body (length (encode m)) (wire before ++ (lull ∷ (wire after ++ rest))) h
    ∙ ap body_read (read_exact_torn before (length (encode m)) (wire after ++ rest) short)
