-- ===== src/Audio/Adts/Frames.antt =====
-- The frames that `next_frame` of src/audio/decode/live/adts.rs cuts off, and the bytes it passes over.
use Prim.Native.String.{String}
use mathlib.Core.Path.{subst}
use rockcast.Prelude.{
  ℕ, ◌≤◌, Bool, true, false, Option, none, some, List, [], ◌∷◌, ◌++◌, append_assoc, append-nil,
  length, length-take, take, drop, take-append-drop, if◌then◌else◌, ◌≡◌, refl, sym, ap, ◌∙◌, arith,
}
use rockcast.Prelude.Results.{Result, err, ok}
use rockcast.Audio.Adts.{
  find_adts_sync, adts_total_frame_len, Refill, stop_set, end_of_stream, chunk, interrupted, broken,
  Round, resync, whole_frame, next_frame,
}
use rockcast.Audio.Adts.Sync.{
  Passed, up_to_sync, given_up, same_index, find_adts_sync-take, find_adts_sync-drop, Resynced,
  synced, cleared, waiting, resync-Resynced, whole_frame_lem, whole_frame-synced, resync-synced,
}

-- What a refill adds to the buffer, and the rounds together.
abbrev pub bytes_of : Refill → List ℕ
bytes_of (chunk bytes) = bytes
bytes_of _ = []

abbrev pub received : List Round → List ℕ
received [] = []
received (round ∷ rounds) = bytes_of round.refill ++ received rounds

-- A frame out of a stream: the bytes passed over, the frame, and what is left in the buffer and in the
-- rounds that have not been used are all the bytes there were; the bytes passed over hold no frame's start, and none are
-- when the buffer starts with one; and the frame is as long as its header says.
pub record Cut (rounds : List Round) (pending frame rest : List ℕ) : Type 0 where
  pub skipped : List ℕ
  pub used : List Round
  pub later : List Round
  pub all_rounds : rounds ≡ used ++ later
  pub all_bytes : pending ++ received rounds ≡ skipped ++ (frame ++ (rest ++ received later))
  pub header : adts_total_frame_len (frame ++ rest) ≡ some (length frame)
  pub passed : Passed skipped
  pub at_once : find_adts_sync pending ≡ some 0 → skipped ≡ []

-- A frame at the start of what a buffer keeps.
frame-Cut :
    (rounds : List Round) (skipped kept : List ℕ) (len : ℕ)
    → adts_total_frame_len kept ≡ some len
    → len ≤ length kept
    → Passed skipped
    → (find_adts_sync (skipped ++ kept) ≡ some 0 → skipped ≡ [])
    → Cut rounds (skipped ++ kept) (take len kept) (drop len kept)
frame-Cut rounds skipped kept len header fits passed at_once =
    let both = take-append-drop len kept in
    let size : length (take len kept) ≡ len = omega (arith, length-take len kept, fits) in
    record {
      skipped = skipped;
      used = [];
      later = rounds;
      all_rounds = refl;
      all_bytes =
          append_assoc skipped kept (received rounds)
          ∙ ap (λ t. skipped ++ t)
              (ap (λ t. t ++ received rounds) (sym both)
                ∙ append_assoc (take len kept) (drop len kept) (received rounds));
      header = ap adts_total_frame_len both ∙ header ∙ ap some (sym size);
      passed = passed;
      at_once = at_once;
    }

whole_frame-Cut :
    (rounds : List Round) (pending : List ℕ) (len : ℕ)
    → whole_frame pending ≡ some len
    → Cut rounds pending (take len (resync pending)) (drop len (resync pending))
whole_frame-Cut rounds pending len h =
    let (i, found) = whole_frame-synced pending len h in
    let (header, fits) = whole_frame_lem pending len h in
    let split : (take i pending ++ resync pending) ≡ pending =
      ap (λ t. take i pending ++ t) (resync-synced pending i found) ∙ take-append-drop i pending in
    subst (λ p. Cut rounds p (take len (resync pending)) (drop len (resync pending))) split
      (frame-Cut rounds (take i pending) (resync pending) len header fits
        (up_to_sync (take i pending) (find_adts_sync-take pending i found))
        (λ e.
          let z : i ≡ 0 = same_index i 0 (sym found ∙ (ap find_adts_sync (sym split) ∙ e)) in
          rw z refl))

-- A cut of the buffer of the next round is one of this round's, with what this round passes over before it.
after-Cut :
    (rounds : List Round) (round : Round) (before kept bytes frame rest : List ℕ)
    → bytes_of round.refill ≡ bytes
    → (cut : Cut rounds (kept ++ bytes) frame rest) → Passed (before ++ cut.skipped)
    → (find_adts_sync (before ++ kept) ≡ some 0 → before ++ cut.skipped ≡ [])
    → Cut (round ∷ rounds) (before ++ kept) frame rest
after-Cut rounds round before kept bytes frame rest e cut passed at_once = record {
  skipped = before ++ cut.skipped;
  used = round ∷ cut.used;
  later = cut.later;
  all_rounds = ap (λ (t : List Round). round ∷ t) cut.all_rounds;
  all_bytes =
      ap (λ t. (before ++ kept) ++ (t ++ received rounds)) e
      ∙ append_assoc before kept (bytes ++ received rounds)
      ∙ ap (λ t. before ++ t) (sym (append_assoc kept bytes (received rounds)) ∙ cut.all_bytes)
      ∙ sym (append_assoc before cut.skipped (frame ++ (rest ++ received cut.later)));
  header = cut.header;
  passed = passed;
  at_once = at_once;
}

refill-Cut :
    (rounds : List Round) (pending bytes frame rest : List ℕ) (round : Round)
    → bytes_of round.refill ≡ bytes
    → Cut rounds (resync pending ++ bytes) frame rest
    → Cut (round ∷ rounds) pending frame rest
refill-Cut rounds pending bytes frame rest round e cut =
    go (resync pending) (resync-Resynced pending) cut
  where
    go :
        (kept : List ℕ)
        → Resynced pending kept
        → Cut rounds (kept ++ bytes) frame rest
        → Cut (round ∷ rounds) pending frame rest
    go _ (synced i found) c =
        let none_more : c.skipped ≡ [] = c.at_once (find_adts_sync-drop pending bytes i found) in
        let split = take-append-drop i pending in
        let same : (take i pending ++ c.skipped) ≡ take i pending =
          ap (λ t. take i pending ++ t) none_more ∙ append-nil (take i pending) in
        subst (λ p. Cut (round ∷ rounds) p frame rest) split
          (after-Cut rounds round (take i pending) (drop i pending) bytes frame rest e c
            (subst Passed (sym same)
              (up_to_sync (take i pending) (find_adts_sync-take pending i found)))
            (λ h.
              let z : i ≡ 0 = same_index i 0 (sym found ∙ (ap find_adts_sync (sym split) ∙ h)) in
              same ∙ rw z refl))
    go _ (cleared absent long) c =
        subst (λ p. Cut (round ∷ rounds) p frame rest) (append-nil pending)
          (after-Cut rounds round pending [] bytes frame rest e c
            (given_up pending c.skipped long absent c.passed)
            (λ h.
              let h' = sym absent ∙ (ap find_adts_sync (sym (append-nil pending)) ∙ h) in
              absurd cc))
    go _ (waiting absent) c =
        after-Cut rounds round [] pending bytes frame rest e c c.passed
          (λ h. let h' = sym absent ∙ h in absurd cc)

frame_of : Option (Result String (Option (List ℕ)) × List ℕ) → List ℕ
frame_of (some (ok (some frame), rest)) = frame
frame_of _ = []

rest_of : Option (Result String (Option (List ℕ)) × List ℕ) → List ℕ
rest_of (some (result, rest)) = rest
rest_of none = []

-- A frame that `next_frame` returns stands in the stream: the bytes that it passed over, the frame, the
-- buffer it leaves and what the rounds that it has not used bring make up the buffer it had and all that comes, in
-- order. The bytes passed over hold no sync word, but for the seams behind a buffer of more than 32,768 bytes that holds none;
-- none are passed over when the buffer starts with a sync word; and the frame is as long as the header at its
-- start says.
pub next_frame-Cut :
    (rounds : List Round) (pending frame rest : List ℕ)
    → next_frame rounds pending ≡ some (ok (some frame), rest)
    → Cut rounds pending frame rest
unfolding next_frame frame_of rest_of
next_frame-Cut [] pending frame rest h = absurd (ground arith)
next_frame-Cut (round ∷ rounds) pending frame rest h =
    go round.stopped (whole_frame pending) refl round.refill refl
      (λ p. next_frame-Cut rounds p frame rest) h
  where
    go :
        (stopped : Bool) (o : Option ℕ)
        → whole_frame pending ≡ o
        → (refill : Refill) → round.refill ≡ refill
        → ((p : List ℕ)
            → next_frame rounds p ≡ some (ok (some frame), rest)
            → Cut rounds p frame rest)
        → let result : Option (Result String (Option (List ℕ)) × List ℕ) =
            if stopped then some (err "stopped", pending) else elim o [
              | some len ↦ some (ok (some (take len (resync pending))), drop len (resync pending))
              | none ↦ elim refill [
                | stop_set ↦ some (err "stopped", resync pending)
                | end_of_stream ↦ some (ok none, resync pending)
                | chunk bytes ↦ next_frame rounds (resync pending ++ bytes)
                | interrupted ↦ next_frame rounds (resync pending)
                | broken message ↦ some (err message, resync pending)
              ]
            ] in
          result ≡ some (ok (some frame), rest) → Cut (round ∷ rounds) pending frame rest
    go true o e refill q ih h = absurd (ground arith)
    go false (some len) e refill q ih h =
        subst (λ x. Cut (round ∷ rounds) pending x (rest_of (some (ok (some frame), rest))))
          (ap frame_of h)
          (subst (λ x. Cut (round ∷ rounds) pending (take len (resync pending)) x) (ap rest_of h)
            (whole_frame-Cut (round ∷ rounds) pending len e))
    go false none e stop_set q ih h = absurd (ground arith)
    go false none e end_of_stream q ih h = absurd (ground arith)
    go false none e (chunk bytes) q ih h =
        refill-Cut rounds pending bytes frame rest round (ap bytes_of q)
          (ih (resync pending ++ bytes) h)
    go false none e interrupted q ih h =
        refill-Cut rounds pending [] frame rest round (ap bytes_of q)
          (ih (resync pending ++ []) (ap (next_frame rounds) (append-nil (resync pending)) ∙ h))
    go false none e (broken message) q ih h = absurd (ground arith)
