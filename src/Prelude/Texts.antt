-- ===== src/Prelude/Texts.antt =====
-- Tests on texts of Rust's standard library, on the native texts: a `String` is a list of characters.
use Prim.Native.Char.{Char, code}
use Prim.Native.String.{String, [], ◌∷◌}
use text.Mathlib.Text.{starts_with, ◌==◌ as str_eq}
use mathlib.Core.Bool.{Bool, true, false, ◌||◌, ◌&&◌}
use rockcast.Prelude.Tests.{leb, ◌==◌}

-- `char::is_whitespace`: the property White_Space of Unicode.
unfoldable pub is_whitespace : Char → Bool
is_whitespace c =
    (leb 0x9 (code c) && leb (code c) 0xd)
    || (code c == 0x20)
    || (code c == 0x85)
    || (code c == 0xa0)
    || (code c == 0x1680)
    || (leb 0x2000 (code c) && leb (code c) 0x200a)
    || (code c == 0x2028)
    || (code c == 0x2029)
    || (code c == 0x202f)
    || (code c == 0x205f)
    || (code c == 0x3000)

-- `trim().is_empty()`
unfoldable pub is_blank : String → Bool
unfolding is_whitespace
is_blank [] = true
is_blank (c ∷ s) = is_whitespace c && is_blank s

-- Every character passes the test.
unfoldable pub all_chars : (Char → Bool) → String → Bool
all_chars test [] = true
all_chars test (c ∷ s) = test c && all_chars test s

unfoldable pub is_ascii_lowercase : Char → Bool
is_ascii_lowercase c = leb 0x61 (code c) && leb (code c) 0x7a

unfoldable pub is_ascii_digit : Char → Bool
is_ascii_digit c = leb 0x30 (code c) && leb (code c) 0x39

unfoldable pub starts_lowercase : String → Bool
starts_lowercase [] = false
starts_lowercase (c ∷ s) = is_ascii_lowercase c

-- `str::contains` and `str::ends_with`, of a text that is not empty
unfoldable pub contains : String → String → Bool
contains [] t = false
contains (c ∷ s) t = starts_with (c ∷ s) t || contains s t

unfoldable pub ends_with : String → String → Bool
ends_with [] t = false
ends_with (c ∷ s) t = str_eq (c ∷ s) t || ends_with s t
