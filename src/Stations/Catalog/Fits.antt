-- ===== src/Stations/Catalog/Fits.antt =====
-- What a catalogue must be for `stations_from_document` of src/stations/catalog.rs, stated without its loops.
use Prim.Native.String.{String}
use rockcast.Prelude.{true, false, List, [], ◌∷◌, ◌≡◌, map, All}
use rockcast.Prelude.Texts.{is_blank}
use rockcast.Prelude.Distinct.{Distinct}
use rockcast.Stations.Catalog.{
  Station, CatalogStream, CatalogStation, trim, is_stable_id, is_http_url, stream_of, station_with,
}

pub record StreamFits (s : CatalogStream) : Type 0 where
  pub stable : is_stable_id s.id ≡ true
  pub http : is_http_url s.url ≡ true

abbrev pub stream_ids : List CatalogStream → List String
stream_ids streams = map (λ (s : CatalogStream). s.id) streams

abbrev pub station_ids : List CatalogStation → List String
station_ids stations = map (λ (s : CatalogStation). s.id) stations

-- Of the streams just one is primary, and it is this one.
pub data OnlyPrimary : List CatalogStream → CatalogStream → Type 0 where
  here :
      (s : CatalogStream) (rest : List CatalogStream)
      → s.primary ≡ true
      → All (λ (t : CatalogStream). t.primary ≡ false) rest
      → OnlyPrimary (s ∷ rest) s
  later :
      (s t : CatalogStream) (rest : List CatalogStream)
      → s.primary ≡ false
      → OnlyPrimary rest t
      → OnlyPrimary (s ∷ rest) t

pub record StationFits (s : CatalogStation) : Type 0 where
  pub stable : is_stable_id s.id ≡ true
  pub named : is_blank s.name ≡ false
  pub trimmed : s.name ≡ trim s.name
  pub primary : CatalogStream
  pub only : OnlyPrimary s.streams primary
  pub fit : All StreamFits s.streams
  pub apart : Distinct (stream_ids s.streams)

-- The station is what the catalogue says of it, played through its primary stream.
pub data Describes : CatalogStation → Station → Type 0 where
  described :
      (s : CatalogStation) (f : StationFits s) (t : Station)
      → t ≡ station_with s (map stream_of s.streams) (stream_of f.primary)
      → Describes s t

pub data DescribesAll : List CatalogStation → List Station → Type 0 where
  no_more : DescribesAll [] []
  and_then :
      (s : CatalogStation) (t : Station) (ss : List CatalogStation) (ts : List Station)
      → Describes s t
      → DescribesAll ss ts
      → DescribesAll (s ∷ ss) (t ∷ ts)
