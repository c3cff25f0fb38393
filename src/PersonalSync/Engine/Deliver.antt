-- ===== src/PersonalSync/Engine/Deliver.antt =====
-- `deliver` of src/personal_sync/engine.rs: what it asks of the channel, and its answer.
use rockcast.Prelude.{List, [], ◌∷◌, ◌++◌, append_assoc, ◌≡◌, refl, ◌∙◌}
use rockcast.PersonalSync.{SyncRequest, SyncResponse}
use rockcast.PersonalSync.Engine.{
  Result, err, ok, SyncTransportError, unauthorized, rate_limited, rejected, unavailable, invalid,
  SyncFailure, SyncChannel, failure_of, last_try, retry, settle_answer, deliver,
}

pub data Call (J : Type 0) : Type 0 where
  sent : SyncRequest J → Call J
  refreshed : Call J

-- A channel that also notes each call that it takes.
pub logged : {J S : Type 0} → SyncChannel J S → SyncChannel J (S × List (Call J))
logged channel = record {
  send = λ request x.
      let answer = channel.send request x.0 in (answer.0, (answer.1, x.1 ++ (sent request ∷ [])));
  refresh_session = λ x.
      let answer = channel.refresh_session x.0 in (answer.0, (answer.1, x.1 ++ (refreshed ∷ [])));
}

-- The calls for a request, from the first answer and that of a refresh.
abbrev pub calls_for :
    {J A B : Type 0}
    → SyncRequest J
    → Result SyncTransportError A
    → Result SyncTransportError B
    → List (Call J)
calls_for request (err unauthorized) (ok unit) = sent request ∷ refreshed ∷ sent request ∷ []
calls_for request (err unauthorized) (err e) = sent request ∷ refreshed ∷ []
calls_for request _ _ = sent request ∷ []

-- The answer for a request, from the first answer, that of a refresh and that of a second try.
abbrev pub answer_for :
    {A B : Type 0}
    → Result SyncTransportError A
    → Result SyncTransportError B
    → Result SyncTransportError A
    → Result SyncFailure A
answer_for (ok a) r second = ok a
answer_for (err unauthorized) (err e) second = err (failure_of e)
answer_for (err unauthorized) (ok unit) (err e) = err (failure_of e)
answer_for (err unauthorized) (ok unit) (ok a) = ok a
answer_for (err e) r second = err (failure_of e)

module _ {J S : Type 0} (channel : SyncChannel J S) where
  Tried : SyncRequest J → List (Call J) → Result SyncTransportError (SyncResponse J) × S → Type 0
  Tried request log first =
      let refresh = channel.refresh_session first.1 in
      let second = channel.send request refresh.1 in
      let result =
        settle_answer (logged channel) request (first.0, (first.1, log ++ (sent request ∷ []))) in
      (result.1.1 ≡ log ++ calls_for request first.0 refresh.0)
      × (result.0 ≡ answer_for first.0 refresh.0 second.0)
      × ((settle_answer channel request first).0 ≡ result.0)

  refused_lem :
      (request : SyncRequest J) (log : List (Call J)) (t : S)
      → Tried request log (err unauthorized, t)
  unfolding Tried settle_answer retry logged
  refused_lem request log t = go (channel.refresh_session t)
    where
      last_lem :
          (x : Result SyncTransportError (SyncResponse J) × S) (log' : List (Call J))
          → let second = last_try {S = S × List (Call J)} (x.0, (x.1, log')) in
            (second.1.1 ≡ log')
            × (second.0 ≡ answer_for (err unauthorized) (ok tt) x.0)
            × ((last_try x).0 ≡ second.0)
      last_lem (err e, u) log' = (refl, refl, refl)
      last_lem (ok a, u) log' = (refl, refl, refl)

      log_lem :
          (c d e : Call J) → ((log ++ (c ∷ [])) ++ (d ∷ [])) ++ (e ∷ []) ≡ log ++ (c ∷ d ∷ e ∷ [])
      log_lem c d e =
          append_assoc (log ++ (c ∷ [])) (d ∷ []) (e ∷ []) ∙ append_assoc log (c ∷ []) (d ∷ e ∷ [])

      go :
          (refresh : Result SyncTransportError Unit × S)
          → let second = channel.send request refresh.1 in
            let result =
              retry
                (logged channel)
                request
                (refresh.0, (refresh.1, (log ++ (sent request ∷ [])) ++ (refreshed ∷ []))) in
            (result.1.1
              ≡ log ++ calls_for {A = SyncResponse J} request (err unauthorized) refresh.0)
            × (result.0 ≡ answer_for (err unauthorized) refresh.0 second.0)
            × ((retry channel request refresh).0 ≡ result.0)
      go (err e, u) = (append_assoc log (sent request ∷ []) (refreshed ∷ []), refl, refl)
      go (ok unit, u) =
          let found =
            last_lem (channel.send request u)
              (((log ++ (sent request ∷ [])) ++ (refreshed ∷ [])) ++ (sent request ∷ [])) in
          (found.0 ∙ log_lem (sent request) refreshed (sent request), found.1, found.2)

  tried :
      (request : SyncRequest J) (log : List (Call J))
      (first : Result SyncTransportError (SyncResponse J) × S)
      → Tried request log first
  unfolding Tried settle_answer logged
  tried request log (ok a, t) = (refl, refl, refl)
  tried request log (err unauthorized, t) = refused_lem request log t
  tried request log (err rate_limited, t) = (refl, refl, refl)
  tried request log (err (rejected field), t) = (refl, refl, refl)
  tried request log (err unavailable, t) = (refl, refl, refl)
  tried request log (err (invalid details), t) = (refl, refl, refl)

  -- A request is sent once, unless its answer is that the session is not authorized: then the
  -- session is refreshed, once, and only if that succeeds is the request sent again, once. The answer
  -- is the first one or else the last call's, its error as the failure of a cycle.
  pub deliver-calls :
      (request : SyncRequest J) (s : S) (log : List (Call J))
      → let first = channel.send request s in
        let refresh = channel.refresh_session first.1 in
        let second = channel.send request refresh.1 in
        let result = deliver (logged channel) request (s, log) in
        (result.1.1 ≡ log ++ calls_for request first.0 refresh.0)
        × (result.0 ≡ answer_for first.0 refresh.0 second.0)
        × ((deliver channel request s).0 ≡ result.0)
  unfolding deliver logged Tried
  deliver-calls request s log = tried request log (channel.send request s)
