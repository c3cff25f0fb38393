-- ===== src/Stations/Catalog/Total.antt =====
-- The `expect` of `stations_from_document` in src/stations/catalog.rs is never met.
use Prim.Native.String.{String}
use text.Mathlib.Text.{◌==◌ as str_eq}
use rockcast.Prelude.{
  not, ◌||◌, List, [], ◌∷◌, ◌≡◌, ◌≢◌, List-cases, ap, ◌∙◌, ◌==◌, ==_iff, inl, inr, Bool-cases,
}
use rockcast.Prelude.Texts.{is_blank}
use rockcast.Prelude.TextMaps.{mem_text}
use rockcast.Prelude.Results.{err, Result-cases}
use rockcast.Stations.Catalog.{
  panicked, CatalogStream, CatalogStation, Document, trim, is_stable_id, is_http_url, count_primary,
  collect_streams, station_from, read_station, read_stations, stations_from_document,
}
use rockcast.Stations.Catalog.Accepts.{one_primary, find_primary-OnlyPrimary, collected}

collect_streams-refused :
    (id : String) (seen : List String) (streams : List CatalogStream)
    → collect_streams id seen streams ≢ err panicked
unfolding collect_streams
collect_streams-refused id seen [] = λ e. absurd cc
collect_streams-refused id seen (s ∷ streams) =
    elim (Bool-cases (not (is_stable_id s.id) || (mem_text s.id seen || not (is_http_url s.url)))) [
      | inl bad ↦ rw (collect_streams, bad) (λ e. absurd cc)
      | inr good ↦ elim (Result-cases (collect_streams id (s.id ∷ seen) streams)) [
        | inl (x, stopped) ↦
            rw (collect_streams, good, stopped)
              (λ e.
                let same : x ≡ panicked = cc in
                collect_streams-refused id (s.id ∷ seen) streams (stopped ∙ ap err same))
        | inr (more, rest) ↦ rw (collect_streams, good, rest) (λ e. absurd cc)
      ]
    ]

read_station-refused :
    (seen : List String) (s : CatalogStation) → read_station seen s ≢ err panicked
unfolding read_station station_from
read_station-refused seen s = elim (Bool-cases (not (is_stable_id s.id) || mem_text s.id seen)) [
  | inl bad ↦ rw (read_station, bad) (λ e. absurd cc)
  | inr fine ↦ elim (Bool-cases (is_blank s.name || not (str_eq s.name (trim s.name)))) [
    | inl bad ↦ rw (read_station, fine, bad) (λ e. absurd cc)
    | inr named ↦ elim (Bool-cases (count_primary s.streams == 1)) [
      | inr bad ↦ rw (read_station, fine, named, bad) (λ e. absurd cc)
      | inl one ↦ elim (Result-cases (collect_streams s.id [] s.streams)) [
        | inl (x, stopped) ↦
            rw (read_station, fine, named, one, stopped)
              (λ e.
                let same : x ≡ panicked = cc in
                collect_streams-refused s.id [] s.streams (stopped ∙ ap err same))
        | inr (made, streams) ↦
            let (p, only) = one_primary s.streams ((==_iff (count_primary s.streams) 1).0 one) in
            rw
              (
                read_station,
                fine,
                named,
                one,
                streams,
                (collected s.id [] s.streams made streams).0,
                station_from,
                find_primary-OnlyPrimary s.streams p only,
              )
              (λ e. absurd cc)
      ]
    ]
  ]
]

read_stations-refused :
    (seen : List String) (ss : List CatalogStation) → read_stations seen ss ≢ err panicked
unfolding read_stations
read_stations-refused seen [] = λ e. absurd cc
read_stations-refused seen (s ∷ ss) = elim (Result-cases (read_station seen s)) [
  | inl (x, bad) ↦
      rw (read_stations, bad)
        (λ e. let same : x ≡ panicked = cc in read_station-refused seen s (bad ∙ ap err same))
  | inr (t, first) ↦ elim (Result-cases (read_stations (s.id ∷ seen) ss)) [
    | inl (x, bad) ↦
        rw (read_stations, first, bad)
          (λ e.
            let same : x ≡ panicked = cc in
            read_stations-refused (s.id ∷ seen) ss (bad ∙ ap err same))
    | inr (more, rest) ↦ rw (read_stations, first, rest) (λ e. absurd cc)
  ]
]

-- Whatever the document, reading it does not panic: where the primary stream is taken there is one.
pub stations_from_document_total : (d : Document) → stations_from_document d ≢ err panicked
unfolding stations_from_document
stations_from_document_total d = elim (List-cases d.stations) [
  | inl none_there ↦ rw (stations_from_document, none_there) (λ e. absurd cc)
  | inr (s, ss, there) ↦ rw (stations_from_document, there) (read_stations-refused [] (s ∷ ss))
]
