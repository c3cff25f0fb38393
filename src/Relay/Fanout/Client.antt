-- ===== src/Relay/Fanout/Client.antt =====
-- One client of src/relay/fanout.rs over time, between the pushes of the feeder.
use mathlib.Core.Path.{ap₂, subst}
use rockcast.Prelude.{
  ℕ, zero, suc, ◌+◌, ◌≤◌, ◌≡◌, refl, sym, ap, ◌∙◌, List, [], ◌∷◌, ◌++◌, length, length-append, take,
  drop, drop-drop, drop-append_le, take-append_le, length-drop, arith,
}
use rockcast.Prelude.Bytes.{IsU64}
use rockcast.Relay.Fanout.{Fanout, push, read_step, served, wait, reposition, pcm_sample_bytes}
use rockcast.Relay.Fanout.Stream.{Represents}
use rockcast.Relay.Fanout.Push.{push-Represents}
use rockcast.Relay.Fanout.Read.{read_step_served, read_step_wait, reposition-id, Part}

-- What has happened since a client joined at the position `from`: the ring and the stream now, the
-- client's position, and the bytes that it was given. The client reads while the ring still holds
-- its position; pushes come in between, in any order.
pub data Run (from : ℕ) : Fanout → List ℕ → ℕ → List ℕ → Type 0 where
  joined :
      (f : Fanout) (hist : List ℕ)
      → Represents f hist
      → from ≤ length hist
      → Run from f hist from []
  pushed :
      {f : Fanout} {hist : List ℕ} {pos : ℕ} {got : List ℕ} (bytes : List ℕ)
      → IsU64 (length hist + length bytes)
      → Run from f hist pos got
      → Run from (push bytes f) (hist ++ bytes) pos got
  took :
      {f : Fanout} {hist : List ℕ} {pos : ℕ} {got : List ℕ} (out_len : ℕ) (out : List ℕ) (next : ℕ)
      → f.start ≤ pos
      → read_step f pos out_len ≡ served out next
      → Run from f hist pos got
      → Run from f hist next (got ++ out)
  waited :
      {f : Fanout} {hist : List ℕ} {pos : ℕ} {got : List ℕ} (out_len next : ℕ)
      → f.start ≤ pos
      → read_step f pos out_len ≡ wait next
      → Run from f hist pos got
      → Run from f hist next got

pub record InStep (from : ℕ) (f : Fanout) (hist : List ℕ) (pos : ℕ) (got : List ℕ) : Type 0 where
  pub ring : Represents f hist
  pub place : pos ≡ from + length got
  pub inside : pos ≤ length hist
  pub bytes : got ≡ take (length got) (drop from hist)

take-take {ℓ} :
    {A : Type ℓ} (m n : ℕ) (xs : List A) → take m xs ++ take n (drop m xs) ≡ take (m + n) xs
take-take zero n xs = ap (λ (k : ℕ). take k xs) (omega arith)
take-take {A} (suc m) n [] = nothing n (suc m + n)
  where
    nothing : (a b : ℕ) → take {A = A} a [] ≡ take b []
    nothing zero zero = refl
    nothing zero (suc b) = refl
    nothing (suc a) zero = refl
    nothing (suc a) (suc b) = refl
take-take (suc m) n (x ∷ xs) =
    let step : suc m + n ≡ suc (m + n) = omega arith in rw step (ap (λ t. x ∷ t) (take-take m n xs))

module _ {from : ℕ} {f : Fanout} {hist : List ℕ} {pos : ℕ} {got : List ℕ}
    (s : InStep from f hist pos got) where
  -- Bytes that join the end of the stream are not among those that the client has.
  pushed-InStep :
      (bytes : List ℕ)
      → IsU64 (length hist + length bytes)
      → InStep from (push bytes f) (hist ++ bytes) pos got
  pushed-InStep bytes fits = record {
    ring = push-Represents f hist bytes s.ring fits;
    place = s.place;
    inside = omega (arith, s.inside, length-append hist bytes);
    bytes =
        rw
          (
            drop-append_le from hist bytes (omega (arith, s.place, s.inside)),
            take-append_le (length got) (drop from hist) bytes
                (omega (arith, s.place, s.inside, length-drop from hist)),
          )
          s.bytes;
  }

  module _ (out_len next : ℕ) (kept : f.start ≤ pos) where
    served-InStep :
        (out : List ℕ)
        → read_step f pos out_len ≡ served out next
        → InStep from f hist next (got ++ out)
    served-InStep out e = record {
      ring = s.ring;
      place = omega (arith, part.moved, s.place, length-append got out, reposition-id f pos kept);
      inside = part.inside;
      bytes = joined_bytes;
    }
      where
        part : Part hist (reposition f pos) out_len (pcm_sample_bytes f.pcm_format) out next
        part = read_step_served f hist pos out_len out next s.ring s.inside e

        behind : out ≡ take (length out) (drop (length got) (drop from hist))
        behind = rw drop-drop (
            part.bytes
            ∙ ap (λ (k : ℕ). take (length out) (drop k hist))
                (omega (arith, s.place, reposition-id f pos kept)))

        joined_bytes : got ++ out ≡ take (length (got ++ out)) (drop from hist)
        joined_bytes =
            rw length-append
              (ap₂ ◌++◌ s.bytes behind ∙ take-take (length got) (length out) (drop from hist))

    waited-InStep : read_step f pos out_len ≡ wait next → InStep from f hist next got
    waited-InStep e =
        subst (λ k. InStep from f hist k got)
          (sym ((read_step_wait f pos out_len next e).0 ∙ reposition-id f pos kept)) s

-- A client that keeps up is given the stream itself: whatever is pushed between its reads, the
-- bytes that it has are those of the stream from where it joined up to its position, none lost, none
-- twice.
pub Run-InStep :
    {from : ℕ} {f : Fanout} {hist : List ℕ} {pos : ℕ} {got : List ℕ}
    → Run from f hist pos got
    → InStep from f hist pos got
Run-InStep (joined f hist r h) = record { ring = r; place = omega arith; inside = h; bytes = refl }
Run-InStep (pushed bytes fits run) = pushed-InStep (Run-InStep run) bytes fits
Run-InStep (took out_len out next h e run) = served-InStep (Run-InStep run) out_len next h out e
Run-InStep (waited out_len next h e run) = waited-InStep (Run-InStep run) out_len next h e
