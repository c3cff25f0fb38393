-- ===== src/Audio/Adts/Sync.antt =====
-- Where `resync` and `whole_frame`, parts of `next_frame` in src/audio/decode/live/adts.rs, find a sync word.
use std.Option.{some-injective}
use rockcast.Prelude.{
  ℕ, zero, suc, ◌+◌, ◌≤◌, ◌<◌, Option-cases, ltb→lt, true, false, Option, none, some, List, [], ◌∷◌,
  ◌++◌, length, take, drop, ltb, leb, leb→le, if◌then◌else◌, ◌≡◌, refl, sym, ap, ◌∙◌, inl, inr,
  Bool-cases, arith,
}
use rockcast.Audio.Adts.{is_adts_sync, find_adts_sync, adts_total_frame_len, resync, whole_frame}

-- What is passed over before a frame holds no sync word, but for the seams behind a buffer of more than 32,768 bytes that
-- holds none and is given up whole.
pub data Passed : List ℕ → Type 0 where
  up_to_sync : (skipped : List ℕ) → find_adts_sync skipped ≡ none → Passed skipped
  given_up :
      (buffer skipped : List ℕ)
      → 32768 < length buffer
      → find_adts_sync buffer ≡ none
      → Passed skipped
      → Passed (buffer ++ skipped)

pub same_index : (i j : ℕ) → some i ≡ some j → i ≡ j
same_index i j e = cc

-- Where the next sync word is, when none is here.
find_later :
    (b0 b1 : ℕ) (rest : List ℕ) (i : ℕ)
    → is_adts_sync b0 b1 ≡ false
    → find_adts_sync (b0 ∷ (b1 ∷ rest)) ≡ some i
    → (k : ℕ) × (i ≡ suc k) × (find_adts_sync (b1 ∷ rest) ≡ some k)
unfolding find_adts_sync
find_later b0 b1 rest i later = elim (Option-cases (find_adts_sync (b1 ∷ rest))) [
  | inl absent ↦ rw (find_adts_sync, later, absent) (λ h. absurd cc)
  | inr (k, found) ↦
      rw (find_adts_sync, later, found)
        (λ h. let same : k + 1 ≡ i = same_index (k + 1) i h in (k, omega (arith, same), refl))
]

find_at_once :
    (b0 b1 : ℕ) (rest : List ℕ)
    → is_adts_sync b0 b1 ≡ true
    → find_adts_sync (b0 ∷ (b1 ∷ rest)) ≡ some 0
unfolding find_adts_sync
find_at_once b0 b1 rest here = rw here refl

find_none :
    (b0 b1 : ℕ) (rest : List ℕ)
    → is_adts_sync b0 b1 ≡ false
    → find_adts_sync (b1 ∷ rest) ≡ none
    → find_adts_sync (b0 ∷ (b1 ∷ rest)) ≡ none
unfolding find_adts_sync
find_none b0 b1 rest later absent = rw (later, absent) refl

pub find_adts_sync-take :
    (bytes : List ℕ) (i : ℕ) → find_adts_sync bytes ≡ some i → find_adts_sync (take i bytes) ≡ none
unfolding find_adts_sync
find_adts_sync-take [] i h = absurd cc
find_adts_sync-take (b0 ∷ []) i h = absurd cc
find_adts_sync-take (b0 ∷ (b1 ∷ rest)) zero h = refl
find_adts_sync-take (b0 ∷ (b1 ∷ rest)) (suc zero) h = refl
find_adts_sync-take (b0 ∷ (b1 ∷ rest)) (suc (suc i)) h = elim (Bool-cases (is_adts_sync b0 b1)) [
  | inl here ↦
      let z : 0 ≡ suc (suc i) =
        same_index 0 (suc (suc i)) (sym (find_at_once b0 b1 rest here) ∙ h) in
      absurd (omega arith)
  | inr later ↦
      let (k, next, found) = find_later b0 b1 rest (suc (suc i)) later h in
      let same : k ≡ suc i = omega arith in
      find_none b0 b1 (take i rest) later
        (find_adts_sync-take (b1 ∷ rest) (suc i) (found ∙ ap some same))
]

-- A buffer that starts with a sync word still does when more bytes come.
pub find_adts_sync-drop :
    (bytes more : List ℕ) (i : ℕ)
    → find_adts_sync bytes ≡ some i
    → find_adts_sync (drop i bytes ++ more) ≡ some 0
unfolding find_adts_sync
find_adts_sync-drop [] more i h = absurd cc
find_adts_sync-drop (b0 ∷ []) more i h = absurd cc
find_adts_sync-drop (b0 ∷ (b1 ∷ rest)) more i h = elim (Bool-cases (is_adts_sync b0 b1)) [
  | inl here ↦
      let z : i ≡ 0 = same_index i 0 (sym h ∙ find_at_once b0 b1 rest here) in
      rw z (find_at_once b0 b1 (rest ++ more) here)
  | inr later ↦
      let (k, next, found) = find_later b0 b1 rest i later h in
      rw next (find_adts_sync-drop (b1 ∷ rest) more k found)
]

-- What `resync` passes over: none of a buffer that starts with a sync word, and else the bytes before the first one, or
-- the whole buffer when it holds none and is too long, or nothing.
pub data Resynced (pending : List ℕ) : List ℕ → Type 0 where
  synced : (i : ℕ) → find_adts_sync pending ≡ some i → Resynced pending (drop i pending)
  cleared : find_adts_sync pending ≡ none → 32768 < length pending → Resynced pending []
  waiting : find_adts_sync pending ≡ none → Resynced pending pending

pub resync-Resynced : (pending : List ℕ) → Resynced pending (resync pending)
unfolding resync
resync-Resynced pending = go (find_adts_sync pending) refl
  where
    go :
        (o : Option ℕ)
        → find_adts_sync pending ≡ o
        → let kept : List ℕ = elim o [
          | some sync ↦ drop sync pending
          | none ↦ if ltb 32768 (length pending) then [] else pending
        ] in
          Resynced pending kept
    go (some sync) e = synced sync e
    go none e = elim (Bool-cases (ltb 32768 (length pending))) [
      | inl long ↦ rw long (cleared e (ltb→lt 32768 (length pending) long))
      | inr short ↦ rw short (waiting e)
    ]

pub whole_frame_lem :
    (pending : List ℕ) (len : ℕ)
    → whole_frame pending ≡ some len
    → (adts_total_frame_len (resync pending) ≡ some len) × (len ≤ length (resync pending))
unfolding whole_frame resync
whole_frame_lem pending len = go (find_adts_sync pending)
  where
    inner :
        (kept : List ℕ) (o : Option ℕ)
        → adts_total_frame_len kept ≡ o
        → let whole : Option ℕ = elim o [
          | none ↦ none
          | some n ↦ if leb n (length kept) then some n else none
        ] in
          whole ≡ some len → (adts_total_frame_len kept ≡ some len) × (len ≤ length kept)
    inner kept none e h = absurd (ground arith)
    inner kept (some n) e h = elim (Bool-cases (leb n (length kept))) [
      | inl fits ↦
          let same : n ≡ len = some-injective (ground arith) in
          (e ∙ ap some same, omega (arith, leb→le n (length kept) fits))
      | inr long ↦ absurd (ground arith)
    ]

    go :
        (o : Option ℕ)
        → let whole : Option ℕ = elim o [
          | none ↦ none
          | some sync ↦ elim (adts_total_frame_len (drop sync pending)) [
            | none ↦ none
            | some n ↦ if leb n (length (drop sync pending)) then some n else none
          ]
        ] in
          let kept : List ℕ = elim o [
            | some sync ↦ drop sync pending
            | none ↦ if ltb 32768 (length pending) then [] else pending
          ] in
          whole ≡ some len → (adts_total_frame_len kept ≡ some len) × (len ≤ length kept)
    go none h = absurd (ground arith)
    go (some sync) h = inner (drop sync pending) (adts_total_frame_len (drop sync pending)) refl h

pub whole_frame-synced :
    (pending : List ℕ) (len : ℕ)
    → whole_frame pending ≡ some len
    → (i : ℕ) × (find_adts_sync pending ≡ some i)
unfolding whole_frame
whole_frame-synced pending len = elim (Option-cases (find_adts_sync pending)) [
  | inl absent ↦ rw (whole_frame, absent) (λ h. absurd cc)
  | inr (i, found) ↦ λ h. (i, found)
]

pub resync-synced :
    (pending : List ℕ) (i : ℕ) → find_adts_sync pending ≡ some i → resync pending ≡ drop i pending
unfolding resync
resync-synced pending i found = rw (resync, found) refl
