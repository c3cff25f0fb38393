-- ===== src/Relay/Fanout/Stream.antt =====
-- What the ring of src/relay/fanout.rs stands for: the end of the stream of all bytes that were
-- ever pushed.
use rockcast.Prelude.{ℕ, ◌-◌, ◌≤◌, ◌≡◌, refl, List, [], length, length-drop, drop, arith}
use rockcast.Prelude.Bytes.{IsU64}
use rockcast.Relay.Fanout.{Fanout, new, end_pos}

-- `hist` are the bytes pushed since the relay started; the ring holds them from `start` on.
pub record Represents (f : Fanout) (hist : List ℕ) : Type 0 where
  pub bytes : f.buf ≡ drop f.start hist
  pub inside : f.start ≤ length hist
  pub written : f.written ≡ length hist
  pub fits : IsU64 (length hist)

-- The length of the ring, and where it ends.
pub length-buf :
    (f : Fanout) (hist : List ℕ) → Represents f hist → length f.buf ≡ length hist - f.start
length-buf f hist r = rw r.bytes (length-drop f.start hist)

pub end_pos-eq : (f : Fanout) (hist : List ℕ) → Represents f hist → end_pos f ≡ length hist
end_pos-eq f hist r = omega (arith, length-buf f hist r, r.inside, r.fits)

pub new-Represents : (stop : _) → Represents (new stop) []
unfolding new
new-Represents stop = record {
  bytes = refl;
  inside = omega arith;
  written = refl;
  fits = omega arith;
}
