-- ===== src/Cast/Proto/Utf8.antt =====
-- `String::from_utf8` of Rust's standard library, as cast/proto.rs uses it: which byte
-- sequences are UTF-8 (RFC 3629, section 4). A text is modelled by its bytes.
use rockcast.Prelude.{
  ℕ, ◌-◌, Bool, false, ◌&&◌, Option, none, some, List, [], ◌∷◌, leb, ltb, ◌==◌, if◌then◌else◌,
}

-- How many continuation bytes are still due, and the range of the next one.
pub record Expect : Type 0 where
  pub pending : ℕ
  pub lo : ℕ
  pub hi : ℕ

abbrev pub at_start : Expect
at_start = record { pending = 0; lo = 0x80; hi = 0xbf }

abbrev expect : ℕ → ℕ → ℕ → Option Expect
expect n lo hi = some (record { pending = n; lo = lo; hi = hi })

-- The first byte of a character.
lead : ℕ → Option Expect
lead b =
    if ltb b 0x80
    then some at_start
    else if leb 0xc2 b && leb b 0xdf
    then expect 1 0x80 0xbf
    else if b == 0xe0
    then expect 2 0xa0 0xbf
    else if b == 0xed
    then expect 2 0x80 0x9f
    else if leb 0xe1 b && leb b 0xef
    then expect 2 0x80 0xbf
    else if b == 0xf0
    then expect 3 0x90 0xbf
    else if leb 0xf1 b && leb b 0xf3
    then expect 3 0x80 0xbf
    else if b == 0xf4
    then expect 3 0x80 0x8f
    else none

utf8_step : Expect → ℕ → Option Expect
utf8_step e b =
    if e.pending == 0
    then lead b
    else if leb e.lo b && leb b e.hi
    then expect (e.pending - 1) 0x80 0xbf
    else none

utf8_from : Option Expect → List ℕ → Bool
unfolding utf8_step lead
utf8_from none bytes = false
utf8_from (some e) [] = e.pending == 0
utf8_from (some e) (b ∷ bytes) = utf8_from (utf8_step e b) bytes

unfoldable pub valid_utf8 : List ℕ → Bool
unfolding utf8_from
valid_utf8 bytes = utf8_from (some at_start) bytes
