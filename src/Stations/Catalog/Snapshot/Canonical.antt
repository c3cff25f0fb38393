-- ===== src/Stations/Catalog/Snapshot/Canonical.antt =====
-- `canonical_catalog_bytes` of src/stations/catalog.rs and the line endings of a checkout.
use Prim.Native.Char.{Char, code}
use Prim.Native.String.{String, [] as empty, ◌∷◌ as ◌+c◌, char_at, ◌++◌ as text_append}
use rockcast.Prelude.{
  Bool, true, false, not, ◌==◌, if◌then◌else◌, ◌≡◌, refl, sym, ap, ◌∙◌, inl, inr, Bool-cases, arith,
}
use rockcast.Prelude.Texts.{all_chars}
use rockcast.Stations.Catalog.Snapshot.{
  replace_crlf, trim_newlines, into_bytes, canonical_catalog_bytes,
}

abbrev pub carriage_return : Char
carriage_return = char_at "\r" 0

-- The file as it stands after a checkout on Windows.
unfoldable pub to_crlf : String → String
to_crlf empty = empty
to_crlf (c +c s) =
    let rest = to_crlf s in if code c == 0x0a then carriage_return +c (c +c rest) else c +c rest

unfoldable pub not_return : Char → Bool
not_return c = not (code c == 0x0d)

replace_crlf_plain :
    (c : Char) (t : String) → not_return c ≡ true → replace_crlf (c +c t) ≡ (c +c replace_crlf t)
unfolding replace_crlf not_return
replace_crlf_plain c empty h = refl
replace_crlf_plain c (d +c t) h =
    let plain : (code c == 0x0d) ≡ false = ground arith in rw (replace_crlf, plain) refl

replace_crlf_newline :
    (c : Char) (t : String)
    → (code c == 0x0a) ≡ true
    → replace_crlf (carriage_return +c (c +c t)) ≡ replace_crlf (c +c t)
unfolding replace_crlf
replace_crlf_newline c t h = rw h refl

replace_crlf_same : (s : String) → all_chars not_return s ≡ true → replace_crlf s ≡ s
unfolding replace_crlf all_chars
replace_crlf_same empty h = refl
replace_crlf_same (c +c s) h =
    replace_crlf_plain c s (ground arith)
    ∙ ap (λ (t : String). c +c t) (replace_crlf_same s (ground arith))

replace_crlf-to_crlf : (s : String) → all_chars not_return s ≡ true → replace_crlf (to_crlf s) ≡ s
unfolding replace_crlf to_crlf all_chars
replace_crlf-to_crlf empty h = refl
replace_crlf-to_crlf (c +c s) h =
    let tail = replace_crlf-to_crlf s (ground arith) in
    let plain : replace_crlf (c +c to_crlf s) ≡ (c +c s) =
      replace_crlf_plain c (to_crlf s) (ground arith) ∙ ap (λ (t : String). c +c t) tail in
    elim (Bool-cases (code c == 0x0a)) [
      | inl newline ↦ rw (to_crlf, newline) (replace_crlf_newline c (to_crlf s) newline ∙ plain)
      | inr other ↦ rw (to_crlf, other) plain
    ]

-- Of a file with no carriage return, the bytes that are hashed are the same when a checkout has put
-- one before each of its newlines.
canonical_catalog_bytes-to_crlf :
    (raw : String)
    → all_chars not_return raw ≡ true
    → canonical_catalog_bytes (to_crlf raw) ≡ canonical_catalog_bytes raw
unfolding canonical_catalog_bytes
canonical_catalog_bytes-to_crlf raw h =
    ap (λ (t : String). into_bytes (text_append (trim_newlines t) "\n"))
      (replace_crlf-to_crlf raw h ∙ sym (replace_crlf_same raw h))
