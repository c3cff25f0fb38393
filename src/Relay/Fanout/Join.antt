-- ===== src/Relay/Fanout/Join.antt =====
-- Where a new client of src/relay/fanout.rs starts, and what it peeks at: `join_position`,
-- `align_pcm_pos`, `align_mp3_pos` and `copy_at`.
use native.Mathlib.Nat.{div-add-mod', mul-mod_left, mod-lt}
use mathlib.Core.Path.{subst}
use native.Mathlib.Decide.{dec_lt}
use rockcast.Prelude.{
  ℕ, zero, suc, ◌+◌, ◌-◌, ◌*◌, ◌/◌, ◌%◌, min, max, ◌≤◌, ◌<◌, ◌≡◌, refl, ap, ◌∙◌, ◌⊎◌, true, false,
  none, some, Bool-cases, Option-cases, inl, inr, List, [], ◌∷◌, ◌++◌, length, length-append,
  length-drop, length-take, drop, take, drop-drop, drop_all, leb, leb→le, arith,
}
use rockcast.Prelude.Bytes.{add64, sub64}
use rockcast.Relay.Fanout.{
  Fanout, pcm_sample_bytes, end_pos, join_cushion, join_position, align_pcm_pos, align_mp3_pos,
  copy_at, is_mpeg_sync, find_mpeg_frame_sync, advance,
}
use rockcast.Relay.Fanout.Stream.{Represents, length-buf, end_pos-eq}
use rockcast.Relay.Fanout.Read.{pcm_sample_bytes-pos, whole-le, from_buf}

-- Between a bound and less than one sample below it.
whole-gt : (n a : ℕ) → 4 ≤ a → n < n / a * a + a
whole-gt n a h = omega (arith, div-add-mod' n a, mod-lt n {m = a} (omega arith))

module _ (f : Fanout) (hist : List ℕ) (r : Represents f hist) where
  -- A position is moved down by less than one sample, but not out of the ring.
  pub align_pcm_pos_lem :
      (pos : ℕ)
      → pos ≤ length hist
      → (f.start ≤ align_pcm_pos f pos)
        × (align_pcm_pos f pos ≤ max pos f.start)
        × (pos < align_pcm_pos f pos + pcm_sample_bytes f.pcm_format)
        × (pos < length hist → (align_pcm_pos f pos - f.start) % pcm_sample_bytes f.pcm_format ≡ 0)
  unfolding align_pcm_pos
  align_pcm_pos_lem pos h = elim (Bool-cases (leb (end_pos f) pos)) [
    | inl past ↦
        let top : end_pos f ≡ length hist = end_pos-eq f hist r in
        let over : end_pos f ≤ pos = leb→le (end_pos f) pos past in
        rw past (
          omega (arith, r.inside),
          omega arith,
          omega (arith, pcm_sample_bytes-pos f.pcm_format),
          λ below. absurd (omega arith),
        )
    | inr inside ↦
        rw (inside, placed)
          (
            omega arith,
            omega (arith, whole-le (pos - f.start) (pcm_sample_bytes f.pcm_format)),
            omega (
              arith,
              whole-gt (pos - f.start) (pcm_sample_bytes f.pcm_format)
                  (pcm_sample_bytes-pos f.pcm_format),
            ),
            λ below. rw offset (
                mul-mod_left ((pos - f.start) / pcm_sample_bytes f.pcm_format)
                  (pcm_sample_bytes f.pcm_format)),
          )
  ]
    where
      whole : ℕ
      whole = (pos - f.start) / pcm_sample_bytes f.pcm_format * pcm_sample_bytes f.pcm_format

      placed : add64 f.start whole ≡ f.start + whole
      placed =
          omega (arith, whole-le (pos - f.start) (pcm_sample_bytes f.pcm_format), r.inside, r.fits)

      offset : f.start + whole - f.start ≡ whole
      offset = omega arith

-- A client joins inside the ring that it finds, whatever was pushed between the two times that the
-- lock is taken.
pub join_position_bounds :
    (f later : Fanout) (hist more : List ℕ)
    → Represents f hist
    → Represents later (hist ++ more)
    → (later.start ≤ join_position f later) × (join_position f later ≤ length (hist ++ more))
unfolding join_position
join_position_bounds f later hist more r rl =
    let start_at : ℕ = max (end_pos f - min join_cushion (length f.buf)) f.start in
    let inside : start_at ≤ length (hist ++ more) =
      omega (arith, end_pos-eq f hist r, r.inside, length-append hist more) in
    omega (arith, align_pcm_pos_lem later (hist ++ more) rl start_at inside, rl.inside)

-- With nothing pushed in between it joins at most the cushion and less than one sample behind the
-- live edge.
pub join_position_live :
    (f : Fanout) (hist : List ℕ)
    → Represents f hist
    → length hist < join_position f f + join_cushion + pcm_sample_bytes f.pcm_format
unfolding join_position
join_position_live f hist r =
    let start_at : ℕ = max (end_pos f - min join_cushion (length f.buf)) f.start in
    let inside : start_at ≤ length hist = omega (arith, end_pos-eq f hist r, r.inside) in
    omega (arith, align_pcm_pos_lem f hist r start_at inside, end_pos-eq f hist r)

take-nil : (n : ℕ) → take {A = ℕ} n [] ≡ []
take-nil zero = refl
take-nil (suc n) = refl

module _ (f : Fanout) (hist : List ℕ) (r : Represents f hist) (pos : ℕ) (out : List ℕ) where
  offset : f.start ≤ pos → pos ≤ length hist → sub64 pos f.start ≡ pos - f.start
  offset lo hi = omega (arith, r.inside, r.fits)

  room :
      f.start ≤ pos → pos ≤ length hist → sub64 (length f.buf) (pos - f.start) ≡ length hist - pos
  room lo hi = omega (arith, length-buf f hist r, r.inside, r.fits)

  reached : f.start ≤ pos → f.start + (pos - f.start) ≡ pos
  reached lo = omega arith

  size :
      length (take (min (length hist - pos) (length out)) (drop pos hist))
      ≡ min (length hist - pos) (length out)
  size = omega (
    arith,
    length-take (min (length hist - pos) (length out)) (drop pos hist),
    length-drop pos hist,
  )

  wrapped_room : pos < f.start → sub64 (length f.buf) (sub64 pos f.start) ≡ length hist - pos
  wrapped_room lo = omega (arith, length-buf f hist r, r.inside, r.fits)

  -- From a position inside the ring, `copy_at` fills the front of `out` with the stream from `pos` on, and says how much.
  pub copy_at_inside :
      f.start ≤ pos
      → pos ≤ length hist
      → let n : ℕ = min (length hist - pos) (length out) in
        copy_at f pos out ≡ (n, take n (drop pos hist) ++ drop n out)
  unfolding copy_at
  copy_at_inside lo hi = elim (Bool-cases (leb (end_pos f) pos)) [
    | inl past ↦
        let none_left : min (length hist - pos) (length out) ≡ 0 =
          omega (arith, leb→le (end_pos f) pos past, end_pos-eq f hist r) in
        rw (past, none_left)
    | inr before ↦ rw (
      before,
      offset lo hi,
      room lo hi,
      from_buf (pos - f.start) f.start hist f.buf r.bytes,
      reached lo,
      size,
    )
  ]

  -- Where the ring has moved past `pos`, the subtraction wraps: `copy_at` says that it copied bytes
  -- and leaves `out` as it was.
  copy_at_behind : pos < f.start → copy_at f pos out ≡ (min (length hist - pos) (length out), out)
  unfolding copy_at
  copy_at_behind lo =
      let before : leb (end_pos f) pos ≡ false = ground (arith, end_pos-eq f hist r, r.inside) in
      rw
        (
          before,
          wrapped_room lo,
          drop_all (sub64 pos f.start) f.buf (omega (arith, length-buf f hist r, r.inside, r.fits)),
        )
        (ap (λ (t : List ℕ). (min (length hist - pos) (length out), t ++ drop (length t) out))
          (take-nil (min (length hist - pos) (length out))))

abbrev pub StartsFrame : List ℕ → Type 0
StartsFrame [] = ⊥
StartsFrame (b0 ∷ []) = ⊥
StartsFrame (b0 ∷ b1 ∷ rest) = is_mpeg_sync b0 b1 ≡ true

find_some :
    (bytes : List ℕ) (i : ℕ) → find_mpeg_frame_sync bytes ≡ some i → StartsFrame (drop i bytes)
unfolding find_mpeg_frame_sync
find_some [] i e = cc
find_some (b0 ∷ []) i e = cc
find_some (b0 ∷ b1 ∷ rest) i e = elim (Bool-cases (is_mpeg_sync b0 b1)) [
  | inl sync ↦ let first : 0 ≡ i = cc (rw sync at e) in rw (← first) sync
  | inr other ↦ elim (Option-cases (find_mpeg_frame_sync (b1 ∷ rest))) [
    | inl missing ↦ cc (rw (other, missing) at e)
    | inr (k, later) ↦
        let next : suc k ≡ i = cc (rw (other, later) at e) in
        rw (← next) (find_some (b1 ∷ rest) k later)
  ]
]

StartsFrame-inside : (i : ℕ) (bytes : List ℕ) → StartsFrame (drop i bytes) → i < length bytes
StartsFrame-inside i bytes s = elim (dec_lt i (length bytes)) [
  | yes h ↦ h
  | no h ↦ absurd (subst StartsFrame (drop_all i bytes (omega arith)) s)
]

-- `align_mp3_pos` keeps a position of the stream inside the ring, and moves it on to a place where
-- an MPEG frame can begin, unless the ring holds none from there on.
align_mp3_pos_lem :
    (f : Fanout) (hist : List ℕ) (pos : ℕ)
    → Represents f hist
    → let from : ℕ = min (max pos f.start) (length hist) in
      (from ≤ align_mp3_pos f pos)
      × (align_mp3_pos f pos ≤ length hist)
      × (StartsFrame (drop (align_mp3_pos f pos) hist)
          ⊎ ((align_mp3_pos f pos ≡ from) × (find_mpeg_frame_sync (drop from hist) ≡ none)))
unfolding align_mp3_pos advance
align_mp3_pos_lem f hist pos r =
    rw (end_pos-eq f hist r, view)
      (elim (Option-cases (find_mpeg_frame_sync (drop from hist))) [
        | inl missing ↦ rw missing (omega arith, omega arith, inr (refl, refl))
        | inr (i, found) ↦
            let starts : StartsFrame (drop i (drop from hist)) =
              find_some (drop from hist) i found in
            let below : i < length (drop from hist) =
              StartsFrame-inside i (drop from hist) starts in
            let place : add64 from i ≡ from + i = omega (arith, length-drop from hist, r.fits) in
            rw (found, place)
              (omega arith, omega (arith, length-drop from hist), inl (rw drop-drop at starts))
      ])
  where
    from : ℕ
    from = min (max pos f.start) (length hist)

    view : drop (from - f.start) f.buf ≡ drop from hist
    view =
        from_buf (from - f.start) f.start hist f.buf r.bytes
        ∙ ap (λ (k : ℕ). drop k hist) (omega (arith, r.inside))
