-- ===== src/Stations/Order/Tests.antt =====
-- Three stations put in the order of src/stations/catalog.rs.
use Prim.Native.String.{String}
use mathlib.Core.List.{Perm}
use rockcast.Prelude.{List, [], ◌∷◌, ◌≡◌, refl}
use rockcast.Prelude.Texts.{contains}
use rockcast.Prelude.Sorting.{put, sort_by, Ordered}
use rockcast.Stations.Catalog.{Station}
use rockcast.Stations.Codec.{from_primary}
use rockcast.Stations.Order.{
  contains_any, text_leb, is_https, partition, is_metal, key_leb, order_stations,
}
use rockcast.Stations.Order.Laws.{MayPrecede, order_stations-Ordered}

abbrev same_case : String → String
same_case s = s

abbrev station : String → String → String → Station
station name url tags = from_primary name name url tags "" 128 "mp3"

abbrev three : List Station
three =
    station "b" "https://b.test" "pop"
    ∷ station "a" "https://a.test" "pop"
    ∷ station "z" "http://z.test" "doom metal"
    ∷ []

three_ordered :
    order_stations same_case three
    ≡ station "z" "http://z.test" "doom metal"
      ∷ station "a" "https://a.test" "pop"
      ∷ station "b" "https://b.test" "pop"
      ∷ []
unfolding order_stations key_leb is_metal partition is_https text_leb contains_any sort_by put
    contains from_primary
three_ordered = refl

order_stations-Ordered_example :
    Perm (order_stations same_case three) three
    × Ordered (MayPrecede same_case) (order_stations same_case three)
order_stations-Ordered_example = order_stations-Ordered same_case three
