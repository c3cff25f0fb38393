-- ===== src/PersonalData/History/Tests.antt =====
-- Plays recorded by src/personal_data/mod.rs.
use Prim.Native.String.{String}
use text.Mathlib.Text.{◌==◌ as str_eq}
use rockcast.Prelude.{ℕ, Bool, true, Option, none, some, List, [], ◌∷◌, if◌then◌else◌, ◌≡◌, refl}
use rockcast.Prelude.Results.{ok}
use rockcast.PersonalData.{PlaybackHistoryEntry}
use rockcast.PersonalData.History.{newest_first, Play, record_play}
use rockcast.PersonalData.History.Retained.{IsRetained}
use rockcast.PersonalData.History.Recorded.{Recorded, record_play-IsRecorded}

-- Time stamps are the words for their instants.
abbrev clock : String → Option ℕ
clock s = if str_eq s "one" then some 1000 else if str_eq s "two" then some 2000 else none

abbrev rock : Play
rock = record { station_id = "rock"; name = "Rock"; catalog_version = none; uuid = 7 }

abbrev entry : PlaybackHistoryEntry Bool
entry = record {
  record_id = 7;
  station_id = "rock";
  started_at = "one";
  last_played_at = "one";
  updated_at = "one";
  ended_at = some "one";
  play_duration_ms = some 0;
  metadata = record {
    last_known_name = some "Rock";
    catalog_version = none;
    source = some "bundled";
    extra = true;
  };
}

-- By the texts, the later instant of a whole second and a half stands before the whole second.
by_texts :
    newest_first
      (record entry { last_played_at = "12:00:00Z" })
      (record entry { last_played_at = "12:00:00.5Z" })
    ≡ true
unfolding newest_first
by_texts = refl

record_play-IsRecorded_example :
    (after : List (PlaybackHistoryEntry Bool)) × (written : List (PlaybackHistoryEntry Bool))
    × (record_play clock true rock "two" 2000 (entry ∷ []) ≡ ok after)
    × Recorded clock rock "two" 2000 (entry ∷ []) written
    × IsRetained clock 2000 written after
record_play-IsRecorded_example =
    record_play-IsRecorded clock true rock "two" 2000 2000 (entry ∷ []) refl ((1000, refl), tt)
