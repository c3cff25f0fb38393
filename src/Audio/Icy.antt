-- ===== src/Audio/Icy.antt =====
-- `IcyStreamReader` of src/audio/decode/icy.rs: the audio of a stream into which titles are mixed. Bytes are numbers. The
-- reader is not stopped, and the titles are thrown away.
pub mod Strip
pub mod Reads
pub mod Progress
mod Tests
use rockcast.Prelude.{
  ℕ, zero, suc, ◌-◌, ◌*◌, min, Bool, true, false, List, [], ◌∷◌, ◌++◌, length, take, drop, leb,
  ◌==◌, if◌then◌else◌,
}
use rockcast.Prelude.Results.{Result, err, ok}

-- What the reads of the inner reader meet: bytes that are there at once, or an error, interrupted or not. A read
-- that meets no bytes is the end.
pub data Met : Type 0 where
  bytes : List ℕ → Met
  interrupted : Met
  broken : Met

pub data ReadError : Type 0 where
  unexpected_eof : ReadError
  interrupted_error : ReadError
  broken_error : ReadError

-- One read into a buffer.
pub read_inner : ℕ → List Met → Result ReadError (List ℕ × List Met)
read_inner n [] = ok ([], [])
read_inner n (bytes chunk ∷ source) =
    if leb (length chunk) n
    then ok (chunk, source)
    else ok (take n chunk, bytes (drop n chunk) ∷ source)
read_inner n (interrupted ∷ source) = err interrupted_error
read_inner n (broken ∷ source) = err broken_error

abbrev pub prefixed :
    List ℕ → Result ReadError (List ℕ × List Met) → Result ReadError (List ℕ × List Met)
prefixed chunk (err e) = err e
prefixed chunk (ok (xs, source)) = ok (chunk ++ xs, source)

-- `read_exact_stop`: as many bytes as are wanted.
pub read_exact : ℕ → List Met → Result ReadError (List ℕ × List Met)
read_exact zero source = ok ([], source)
read_exact (suc n) [] = err unexpected_eof
read_exact (suc n) (bytes [] ∷ source) = err unexpected_eof
read_exact (suc n) (bytes (b ∷ chunk) ∷ source) =
    let rest = read_exact (n - length chunk) source in
    if leb (length chunk) n
    then prefixed (b ∷ chunk) rest
    else ok (take (suc n) (b ∷ chunk), bytes (drop (suc n) (b ∷ chunk)) ∷ source)
read_exact (suc n) (interrupted ∷ source) = read_exact (suc n) source
read_exact (suc n) (broken ∷ source) = err broken_error

pub record IcyStreamReader : Type 0 where
  pub inner : List Met
  pub meta_int : ℕ
  pub until_meta : ℕ

abbrev pub first_byte : List ℕ → ℕ
first_byte [] = 0
first_byte (b ∷ bs) = b

pub skip_meta : IcyStreamReader → Result ReadError IcyStreamReader
skip_meta r = elim (read_exact 1 r.inner) [
  | err e ↦ err e
  | ok (len_byte, source) ↦ elim (read_exact (first_byte len_byte * 16) source) [
    | err e ↦ err e
    | ok (meta, rest) ↦ ok (record r { inner = rest; until_meta = r.meta_int })
  ]
]

-- The read of the audio before the next title.
pub read_audio : ℕ → IcyStreamReader → Result ReadError (List ℕ × IcyStreamReader)
read_audio buf_len r =
    let most = min buf_len r.until_meta in
    if most == 0 then ok ([], r) else elim (read_inner most r.inner) [
      | err e ↦ err e
      | ok (out, source) ↦
          ok (out, record r { inner = source; until_meta = r.until_meta - length out })
    ]

pub read_plain : ℕ → IcyStreamReader → Result ReadError (List ℕ × IcyStreamReader)
read_plain buf_len r = elim (read_inner buf_len r.inner) [
  | err e ↦ err e
  | ok (out, source) ↦ ok (out, record r { inner = source })
]

pub read : ℕ → IcyStreamReader → Result ReadError (List ℕ × IcyStreamReader)
read buf_len r =
    if r.meta_int == 0
    then read_plain buf_len r
    else if r.until_meta == 0
    then elim (skip_meta r) [ err e ↦ err e | ok s ↦ read_audio buf_len s ]
    else read_audio buf_len r

-- What reads into buffers of these sizes give until one fails.
pub read_all : List ℕ → IcyStreamReader → List ℕ
read_all [] r = []
read_all (buf_len ∷ sizes) r = elim (read buf_len r) [
  | err e ↦ []
  | ok (out, s) ↦ out ++ read_all sizes s
]
