-- ===== src/Session/Renewal.antt =====
-- What a renewal by src/session/client.rs does to the credentials.
use mathlib.Core.Path.{subst}
use Prim.Native.String.{String, len}
use rockcast.Prelude.{
  ℕ, Bool, true, false, ◌||◌, Option, none, some, ltb, ◌==◌, if◌then◌else◌, ◌≡◌, ◌⊎◌, refl, sym,
  inl, inr, Bool-cases, arith,
}
use rockcast.Prelude.Results.{Result, err, ok}
use rockcast.Session.{
  SessionError, unavailable, rejected, NativeCredentials, new_credentials, DeviceSession, Answer,
  no_answer, answer, Store, load_some, save, clear, is_success, keep_session, issue_with,
  issue_device_session, access_token_needs_refresh, renewed, ensure_fresh, access_credentials,
}

-- What may become of the storage: nothing, a new token for the same device, or the removal that a server asked for.
pub data Change (a : Answer) (s : Store) : Store → Type 0 where
  unchanged : Change a s s
  new_token :
      (old new : NativeCredentials)
      → s.stored ≡ some old
      → new.device_id ≡ old.device_id
      → new.device_secret ≡ old.device_secret
      → Change a s (record s { stored = some new })
  revoked :
      (session : Option DeviceSession)
      → a ≡ answer 401 true session
      → Change a s (record s { stored = none })

load_some-stored : (s : Store) (c : NativeCredentials) → load_some s ≡ ok c → s.stored ≡ some c
unfolding load_some
load_some-stored s c = go s.load_error s.stored
  where
    go :
        (e : Option SessionError) (o : Option NativeCredentials)
        → let loaded : Result SessionError NativeCredentials = elim e [
          | some e ↦ err e
          | none ↦ elim o [ none ↦ err rejected | some c ↦ ok c ]
        ] in
          loaded ≡ ok c → o ≡ some c
    go (some e) o h = absurd cc
    go none none h = absurd cc
    go none (some d) h = cc

clear-Change :
    (a : Answer) (s : Store) (session : Option DeviceSession)
    → a ≡ answer 401 true session
    → Change a s (clear s)
unfolding clear
clear-Change a s session h = go s.clear_error
  where
    go :
        (e : Option SessionError)
        → let cleared : Store = elim e [ some e ↦ s | none ↦ record s { stored = none } ] in
          Change a s cleared
    go (some e) = unchanged
    go none = revoked session h

save-Change :
    (a : Answer) (s : Store) (old new : NativeCredentials)
    → s.stored ≡ some old
    → new.device_id ≡ old.device_id
    → new.device_secret ≡ old.device_secret
    → Change a s (save new s).0
unfolding save
save-Change a s old new h p q = go s.save_error
  where
    go :
        (e : Option SessionError)
        → let kept : Store × Option SessionError = elim e [
          | some e ↦ (s, some e)
          | none ↦ (record s { stored = some new }, none)
        ] in
          Change a s kept.0
    go (some e) = unchanged
    go none = new_token old new h p q

new_credentials_either :
    (device_id device_secret token expires : String)
    → (new_credentials device_id device_secret token expires ≡ err rejected)
      ⊎ (new_credentials device_id device_secret token expires
          ≡ ok (record {
            device_id = device_id;
            device_secret = device_secret;
            access_token = token;
            access_expires_at = expires;
          }))
unfolding new_credentials
new_credentials_either device_id device_secret token expires =
    elim (Bool-cases (len device_id == 0 || (ltb (len device_secret) 32 || ltb (len token) 16))) [
      | inl bad ↦ inl (rw bad refl)
      | inr good ↦ inr (rw good refl)
    ]

keep-Change :
    (a : Answer) (s : Store) (old : NativeCredentials) (session : DeviceSession)
    → s.stored ≡ some old
    → Change a s (keep_session old session s).0
unfolding keep_session
keep-Change a s old session h =
    elim (new_credentials_either old.device_id old.device_secret session.access_token
      session.access_expires_at) [
        | inl e ↦ rw (keep_session, e) unchanged
        | inr e ↦
            rw (keep_session, e)
              (save-Change a s old
                (record {
                  device_id = old.device_id;
                  device_secret = old.device_secret;
                  access_token = session.access_token;
                  access_expires_at = session.access_expires_at;
                })
                h refl refl)
      ]

issue_with-Change :
    (a : Answer) (s : Store) (old : NativeCredentials)
    → s.stored ≡ some old
    → Change a s (issue_with old a s).0
unfolding issue_with
issue_with-Change no_answer s old h = unchanged
issue_with-Change (answer status invalid session) s old h = elim (Bool-cases (status == 401)) [
  | inl refused ↦ elim (Bool-cases invalid) [
    | inr kept ↦ rw (refused, kept) unchanged
    | inl gone ↦
        let is : status ≡ 401 = ground arith in
        let asked : answer status invalid session ≡ answer 401 true session = cc in
        subst (λ b. Change b s (issue_with old b s).0) (sym asked)
          (clear-Change (answer 401 true session) s session refl)
  ]
  | inr other ↦ elim (Bool-cases (is_success status)) [
    | inr failed ↦ rw (other, failed) unchanged
    | inl fine ↦ rw (other, fine) (issued session)
  ]
]
  where
    issued :
        (o : Option DeviceSession)
        → let result : Store × Option SessionError = elim o [
          | none ↦ (s, some unavailable)
          | some issued ↦ keep_session old issued s
        ] in
          Change (answer status invalid session) s result.0
    issued none = unchanged
    issued (some d) = keep-Change (answer status invalid session) s old d h

issue-Change : (a : Answer) (s : Store) → Change a s (issue_device_session a s).0
unfolding issue_device_session
issue-Change a s = go (load_some s) refl
  where
    go :
        (x : Result SessionError NativeCredentials)
        → load_some s ≡ x
        → let result : Store × Option SessionError = elim x [
          | err e ↦ (s, some e)
          | ok current ↦ issue_with current a s
        ] in
          Change a s result.0
    go (err e) h = unchanged
    go (ok c) h = issue_with-Change a s c (load_some-stored s c h)

-- The credentials that a request returns are those that are stored.
abbrev pub AreStored : Store × Result SessionError NativeCredentials → Type 0
AreStored (s, err e) = Unit
AreStored (s, ok c) = s.stored ≡ some c

-- A request that leaves only a change of that kind, and returns what is stored.
pub record IsHonest (a : Answer) (s : Store) (x : Store × Result SessionError NativeCredentials)
    : Type 0 where
  pub change : Change a s x.0
  pub returned : AreStored x

module _ (parse_time : String → Option ℕ) where
  renewed-AreStored : (x : Store × Option SessionError) → AreStored (renewed parse_time x)
  unfolding renewed
  renewed-AreStored (s, some e) = tt
  renewed-AreStored (s, none) = go (load_some s) refl
    where
      go : (x : Result SessionError NativeCredentials) → load_some s ≡ x → AreStored (s, x)
      go (err e) h = tt
      go (ok c) h = load_some-stored s c h

  renewed-store : (x : Store × Option SessionError) → (renewed parse_time x).0 ≡ x.0
  unfolding renewed
  renewed-store (s, some e) = refl
  renewed-store (s, none) = refl

  renewed-Change :
      (a : Answer) (s : Store) → Change a s (renewed parse_time (issue_device_session a s)).0
  renewed-Change a s =
      subst (Change a s) (sym (renewed-store (issue_device_session a s))) (issue-Change a s)

  renewed-IsHonest :
      (a : Answer) (s : Store) → IsHonest a s (renewed parse_time (issue_device_session a s))
  renewed-IsHonest a s = record {
    change = renewed-Change a s;
    returned = renewed-AreStored (issue_device_session a s);
  }

  ensure-IsHonest :
      (a : Answer) (now : ℕ) (s : Store) → IsHonest a s (ensure_fresh parse_time a now s)
  unfolding ensure_fresh
  ensure-IsHonest a now s = go (load_some s) refl
    where
      go :
          (x : Result SessionError NativeCredentials)
          → load_some s ≡ x
          → let result : Store × Result SessionError NativeCredentials = elim x [
            | err e ↦ (s, err e)
            | ok c ↦
                if access_token_needs_refresh parse_time c.access_expires_at now
                then renewed parse_time (issue_device_session a s)
                else (s, ok c)
          ] in
            IsHonest a s result
      go (err e) h = record { change = unchanged; returned = tt }
      go (ok c) h =
          elim (Bool-cases (access_token_needs_refresh parse_time c.access_expires_at now)) [
            | inl stale ↦ rw stale (renewed-IsHonest a s)
            | inr fresh ↦
                rw fresh (record { change = unchanged; returned = load_some-stored s c h })
          ]

  -- Whether a renewal is forced or not, and whatever the server answers and the storage does: the credentials that are returned are those stored
  -- afterwards, and the stored ones are as before, or have a new token for the same device and secret, or
  -- are gone because the server answered 401 with `device_credential_invalid`.
  pub access_credentials-IsHonest :
      (force_renewal : Bool) (a : Answer) (now : ℕ) (s : Store)
      → IsHonest a s (access_credentials parse_time force_renewal a now s)
  unfolding access_credentials
  access_credentials-IsHonest true a now s = renewed-IsHonest a s
  access_credentials-IsHonest false a now s = ensure-IsHonest a now s
