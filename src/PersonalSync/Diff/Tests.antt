-- ===== src/PersonalSync/Diff/Tests.antt =====
-- Runs of the diff of src/personal_sync/state.rs.
use Prim.Native.String.{String}
use rockcast.Prelude.{ℕ, ◌%◌, ◌≡◌, refl, some, List, [], ◌∷◌, ◌==◌, ==_iff}
use rockcast.Prelude.Maps.{lookup}
use rockcast.PersonalSync.{Changes}
use rockcast.PersonalSync.Diff.{Synced, unchanged, has_id, changed, missing, diff}
use rockcast.PersonalSync.Diff.Lookups.{find_id}
use rockcast.PersonalSync.Diff.Apply.{pushed, take_changes, diff-applied}

-- A record that is a number: its last digit is the id.
abbrev pub digits : Synced ℕ ℕ
digits = record {
  record_id = λ n. n % 10;
  updated_at = λ n. "t";
  same = λ a b. a == b;
  same_iff = ==_iff;
  push = λ n. n;
}

-- One record was changed, one added, and one, of id 5, deleted.
abbrev base : List (ℕ × ℕ)
base = (1, 11) ∷ (2, 12) ∷ (5, 15) ∷ []

abbrev profile : List ℕ
profile = 21 ∷ 12 ∷ 43 ∷ []

abbrev expected : Changes ℕ
expected = record {
  upserts = 21 ∷ 43 ∷ [];
  deletes = record { record_id = 5; updated_at = "t'" } ∷ [];
}

stamp : String → String
stamp s = "t'"

diff_run : diff digits stamp base profile ≡ expected
unfolding diff changed missing unchanged has_id lookup stamp
diff_run = refl

diff-applied_example :
    lookup 1 (
      take_changes digits
        (λ n. n % 10)
        (λ n. refl)
        (pushed digits (λ n. n % 10) (λ n. refl) base)
        (diff digits stamp base profile))
    ≡ some 21
unfolding find_id has_id
diff-applied_example =
    diff-applied digits (λ n. n % 10) (λ n. refl) stamp base profile (refl, (refl, (refl, tt))) 1
