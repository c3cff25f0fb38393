-- ===== src/Stations/Catalog/Accepts.antt =====
-- `stations_from_document` of src/stations/catalog.rs against what a catalogue must be.
use mathlib.Core.Path.{subst}
use Prim.Native.String.{String}
use text.Mathlib.Text.{◌==◌ as str_eq}
use text.Mathlib.TextEquality.{eq_iff}
use rockcast.Prelude.{
  false, not, ◌||◌, some, List, [], ◌∷◌, ◌≡◌, ◌≢◌, ◌↔◌, List-cases, refl, sym, ap, ◌∙◌, map, All,
  ◌==◌, arith, ==_iff, inl, inr, Bool-cases,
}
use rockcast.Prelude.Texts.{is_blank}
use rockcast.Prelude.TextMaps.{mem_text}
use rockcast.Prelude.Results.{ok, Result-cases}
use rockcast.Prelude.Distinct.{
  Distinct, Fresh, all_in, added, Fresh-Distinct, Distinct-Fresh, nothing_seen,
}
use rockcast.Stations.Catalog.{
  StationStream, Station, CatalogStream, CatalogStation, Document, trim, is_stable_id, is_http_url,
  stream_of, count_primary, collect_streams, find_primary, station_from, read_station,
  read_stations, stations_from_document,
}
use rockcast.Stations.Catalog.Fits.{
  StreamFits, stream_ids, station_ids, OnlyPrimary, here, later, StationFits, Describes, described,
  DescribesAll, no_more, and_then,
}

no_primary :
    (streams : List CatalogStream)
    → count_primary streams ≡ 0
    → All (λ (t : CatalogStream). t.primary ≡ false) streams
unfolding count_primary
no_primary [] h = tt
no_primary (s ∷ streams) h = (ground arith, no_primary streams (ground arith))

pub one_primary :
    (streams : List CatalogStream)
    → count_primary streams ≡ 1
    → (p : CatalogStream) × OnlyPrimary streams p
unfolding count_primary
one_primary [] h = absurd (omega arith)
one_primary (s ∷ streams) h = elim (Bool-cases s.primary) [
  | inl first ↦ (s, here s streams first (no_primary streams (ground arith)))
  | inr other ↦
      let rest = one_primary streams (ground arith) in (rest.0, later s rest.0 streams other rest.1)
]

count_no_primary :
    (streams : List CatalogStream)
    → All (λ (t : CatalogStream). t.primary ≡ false) streams
    → count_primary streams ≡ 0
unfolding count_primary
count_no_primary [] h = refl
count_no_primary (s ∷ streams) h = ground (arith, count_no_primary streams h.1, h.0)

count_one_primary :
    (streams : List CatalogStream) (p : CatalogStream)
    → OnlyPrimary streams p
    → count_primary streams ≡ 1
unfolding count_primary
count_one_primary [] p only = elim only [ ]
count_one_primary (s ∷ rest) _ (here _ _ first others) =
    ground (arith, count_no_primary rest others)
count_one_primary (s ∷ rest) p (later _ _ _ other only) =
    ground (arith, count_one_primary rest p only)

pub find_primary-OnlyPrimary :
    (streams : List CatalogStream) (p : CatalogStream)
    → OnlyPrimary streams p
    → find_primary (map stream_of streams) ≡ some (stream_of p)
unfolding find_primary stream_of
find_primary-OnlyPrimary [] p only = elim only [ ]
find_primary-OnlyPrimary (s ∷ rest) _ (here _ _ first others) = rw first refl
find_primary-OnlyPrimary (s ∷ rest) p (later _ _ _ other only) =
    rw other (find_primary-OnlyPrimary rest p only)

pub collected :
    (id : String) (seen : List String) (streams : List CatalogStream) (made : List StationStream)
    → collect_streams id seen streams ≡ ok made
    → (made ≡ map stream_of streams) × All StreamFits streams × Fresh seen (stream_ids streams)
unfolding collect_streams
collected id seen [] made = λ e. (cc, tt, all_in seen)
collected id seen (s ∷ streams) made =
    elim (Bool-cases (not (is_stable_id s.id) || (mem_text s.id seen || not (is_http_url s.url)))) [
      | inl bad ↦ rw (collect_streams, bad) (λ e. absurd cc)
      | inr good ↦ elim (Result-cases (collect_streams id (s.id ∷ seen) streams)) [
        | inl (x, stopped) ↦ rw (collect_streams, good, stopped) (λ e. absurd cc)
        | inr (more, rest) ↦
            rw (collect_streams, good, rest)
              (λ e.
                let (same, fit, fresh) = collected id (s.id ∷ seen) streams more rest in
                let split : (stream_of s ∷ more) ≡ made = cc in
                (
                  sym split ∙ ap (λ l. stream_of s ∷ l) same,
                  (record { stable = ground arith; http = ground arith }, fit),
                  added s.id (stream_ids streams) seen (ground arith) fresh,
                ))
      ]
    ]

collect_fitting :
    (id : String) (seen : List String) (streams : List CatalogStream)
    → All StreamFits streams
    → Fresh seen (stream_ids streams)
    → collect_streams id seen streams ≡ ok (map stream_of streams)
unfolding collect_streams
collect_fitting id seen [] fit fresh = refl
collect_fitting id seen (s ∷ streams) fit (added _ _ _ new fresh) =
    let first : StreamFits s = fit.0 in
    rw
      (
        collect_streams,
        first.stable,
        new,
        first.http,
        collect_fitting id (s.id ∷ seen) streams fit.1 fresh,
      )
      refl

read_station-Describes :
    (seen : List String) (s : CatalogStation) (t : Station)
    → read_station seen s ≡ ok t
    → Describes s t × (mem_text s.id seen ≡ false)
unfolding read_station station_from
read_station-Describes seen s t =
    elim (Bool-cases (not (is_stable_id s.id) || mem_text s.id seen)) [
      | inl bad ↦ rw (read_station, bad) (λ e. absurd cc)
      | inr fine ↦ elim (Bool-cases (is_blank s.name || not (str_eq s.name (trim s.name)))) [
        | inl bad ↦ rw (read_station, fine, bad) (λ e. absurd cc)
        | inr named ↦ elim (Bool-cases (count_primary s.streams == 1)) [
          | inr bad ↦ rw (read_station, fine, named, bad) (λ e. absurd cc)
          | inl one ↦ elim (Result-cases (collect_streams s.id [] s.streams)) [
            | inl (x, stopped) ↦ rw (read_station, fine, named, one, stopped) (λ e. absurd cc)
            | inr (made, streams) ↦
                let (same, fit, fresh) = collected s.id [] s.streams made streams in
                let (p, only) =
                  one_primary s.streams ((==_iff (count_primary s.streams) 1).0 one) in
                let fits : StationFits s = record {
                  stable = ground arith;
                  named = ground arith;
                  trimmed = (eq_iff s.name (trim s.name)).0 (ground arith);
                  primary = p;
                  only = only;
                  fit = fit;
                  apart = (Fresh-Distinct [] (stream_ids s.streams) fresh).0;
                } in
                rw
                  (
                    read_station,
                    fine,
                    named,
                    one,
                    streams,
                    same,
                    station_from,
                    find_primary-OnlyPrimary s.streams p only,
                  )
                  (λ e. (described s fits t cc, ground arith))
          ]
        ]
      ]
    ]

read_station_fitting :
    (seen : List String) (s : CatalogStation) (t : Station)
    → Describes s t
    → mem_text s.id seen ≡ false
    → read_station seen s ≡ ok t
unfolding read_station station_from
read_station_fitting seen s t (described _ f _ same) new =
    rw
      (
        read_station,
        f.stable,
        new,
        f.named,
        (eq_iff s.name (trim s.name)).1 f.trimmed,
        count_one_primary s.streams f.primary f.only,
        collect_fitting s.id [] s.streams f.fit (
            Distinct-Fresh [] (stream_ids s.streams) f.apart (nothing_seen (stream_ids s.streams))),
        station_from,
        find_primary-OnlyPrimary s.streams f.primary f.only,
        same,
      )
      refl

read_stations-DescribesAll :
    (seen : List String) (ss : List CatalogStation) (ts : List Station)
    → read_stations seen ss ≡ ok ts
    → DescribesAll ss ts × Fresh seen (station_ids ss)
unfolding read_stations
read_stations-DescribesAll seen [] [] = λ e. (no_more, all_in seen)
read_stations-DescribesAll seen [] (t ∷ ts) = λ e. absurd cc
read_stations-DescribesAll seen (s ∷ ss) ts = elim (Result-cases (read_station seen s)) [
  | inl (x, bad) ↦ rw (read_stations, bad) (λ e. absurd cc)
  | inr (t, first) ↦ elim (Result-cases (read_stations (s.id ∷ seen) ss)) [
    | inl (x, bad) ↦ rw (read_stations, first, bad) (λ e. absurd cc)
    | inr (more, rest) ↦
        rw (read_stations, first, rest)
          (λ e.
            let (all, fresh) = read_stations-DescribesAll (s.id ∷ seen) ss more rest in
            let (one, new) = read_station-Describes seen s t first in
            let split : (t ∷ more) ≡ ts = cc in
            (
              subst (λ l. DescribesAll (s ∷ ss) l) split (and_then s t ss more one all),
              added s.id (station_ids ss) seen new fresh,
            ))
  ]
]

read_stations_fitting :
    (seen : List String) (ss : List CatalogStation) (ts : List Station)
    → DescribesAll ss ts
    → Fresh seen (station_ids ss)
    → read_stations seen ss ≡ ok ts
unfolding read_stations
read_stations_fitting seen [] _ no_more fresh = refl
read_stations_fitting seen (s ∷ ss) _ (and_then _ t _ ts one all) (added _ _ _ new fresh) =
    rw
      (
        read_stations,
        read_station_fitting seen s t one new,
        read_stations_fitting (s.id ∷ seen) ss ts all fresh,
      )
      refl

pub record Accepted (d : Document) (ts : List Station) : Type 0 where
  pub some_station : d.stations ≢ []
  pub described : DescribesAll d.stations ts
  pub apart : Distinct (station_ids d.stations)

accepted_of_list :
    (ss : List CatalogStation) (ts : List Station)
    → ss ≢ []
    → (read_stations [] ss ≡ ok ts) ↔ (DescribesAll ss ts × Distinct (station_ids ss))
accepted_of_list ss ts h = (
  λ e.
      let (all, fresh) = read_stations-DescribesAll [] ss ts e in
      (all, (Fresh-Distinct [] (station_ids ss) fresh).0),
  λ p.
      read_stations_fitting [] ss ts p.0
        (Distinct-Fresh [] (station_ids ss) p.1 (nothing_seen (station_ids ss))),
)

-- A document gives these stations just when it has a station, no two of its stations have one id, and
-- each station has a stable id, a name that is not blank and has no white space around it, just one primary
-- stream, and streams with stable ids, all different, and HTTP addresses; and the stations are the
-- document's in its order, each with all its streams and with the address, codec and bit rate of its primary
-- one.
pub stations_from_document-Accepted :
    (d : Document) (ts : List Station) → (stations_from_document d ≡ ok ts) ↔ Accepted d ts
unfolding stations_from_document
stations_from_document-Accepted d ts = elim (List-cases d.stations) [
  | inl none_there ↦ (
    rw (stations_from_document, none_there) (λ e. absurd cc),
    λ a. absurd (a.some_station none_there),
  )
  | inr (s, ss, there) ↦
      let full : d.stations ≢ [] = λ e. absurd cc in
      let read : stations_from_document d ≡ read_stations [] d.stations =
        rw (stations_from_document, there) refl in
      let both = accepted_of_list d.stations ts full in
      (
        λ e.
            let p = both.0 (sym read ∙ e) in
            record { some_station = full; described = p.0; apart = p.1 },
        λ a. read ∙ both.1 (a.described, a.apart),
      )
]
