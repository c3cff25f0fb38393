-- ===== src/Session.antt =====
-- The device's session in src/session/client.rs: its credentials and the renewal of its access token. One process
-- holds the lock throughout; what the server answers and whether the secure storage works are given.
pub mod Renewal
mod Tests
use Prim.Native.String.{String, len}
use rockcast.Prelude.{
  ℕ, ◌+◌, Bool, true, false, ◌||◌, Option, none, some, ltb, leb, ◌==◌, if◌then◌else◌,
}
use rockcast.Prelude.Results.{Result, err, ok}

pub data SessionError : Type 0 where
  unavailable : SessionError
  rejected : SessionError
  unauthorized : SessionError
  secure_storage_unavailable : SessionError

pub record NativeCredentials : Type 0 where
  pub device_id : String
  pub device_secret : String
  pub access_token : String
  pub access_expires_at : String

pub new_credentials : String → String → String → String → Result SessionError NativeCredentials
new_credentials device_id device_secret access_token access_expires_at =
    if len device_id == 0 || (ltb (len device_secret) 32 || ltb (len access_token) 16)
    then err rejected
    else ok (record {
      device_id = device_id;
      device_secret = device_secret;
      access_token = access_token;
      access_expires_at = access_expires_at;
    })

pub record DeviceSession : Type 0 where
  pub access_token : String
  pub access_expires_at : String

-- What comes back for a request of a session: with the status, whether the body's code is `device_credential_invalid`, and the session
-- that is read from the body.
pub data Answer : Type 0 where
  no_answer : Answer
  answer : ℕ → Bool → Option DeviceSession → Answer

-- The storage: what it holds, and the errors that it makes.
pub record Store : Type 0 where
  pub stored : Option NativeCredentials
  pub load_error : Option SessionError
  pub save_error : Option SessionError
  pub clear_error : Option SessionError

-- `load()?.ok_or(Rejected)?`
pub load_some : Store → Result SessionError NativeCredentials
load_some s = elim s.load_error [
  | some e ↦ err e
  | none ↦ elim s.stored [ none ↦ err rejected | some c ↦ ok c ]
]

-- With the error, if there is one.
pub save : NativeCredentials → Store → Store × Option SessionError
save c s = elim s.save_error [ some e ↦ (s, some e) | none ↦ (record s { stored = some c }, none) ]

pub clear : Store → Store
clear s = elim s.clear_error [ some e ↦ s | none ↦ record s { stored = none } ]

pub is_success : ℕ → Bool
is_success status = elim (ltb status 200) [ true ↦ false | false ↦ ltb status 300 ]

pub is_server_error : ℕ → Bool
is_server_error status = elim (ltb status 500) [ true ↦ false | false ↦ ltb status 600 ]

pub keep_session : NativeCredentials → DeviceSession → Store → Store × Option SessionError
keep_session current session s =
    elim (new_credentials current.device_id current.device_secret session.access_token
      session.access_expires_at) [ err e ↦ (s, some e) | ok new ↦ save new s ]

pub issue_with : NativeCredentials → Answer → Store → Store × Option SessionError
issue_with current no_answer s = (s, some unavailable)
issue_with current (answer status invalid session) s =
    if status == 401
    then (if invalid then (clear s, some unauthorized) else (s, some unavailable))
    else if is_success status
    then (elim session [
      | none ↦ (s, some unavailable)
      | some issued ↦ keep_session current issued s
    ])
    else (s, some (if is_server_error status then unavailable else rejected))

pub issue_device_session : Answer → Store → Store × Option SessionError
issue_device_session a s = elim (load_some s) [
  | err e ↦ (s, some e)
  | ok current ↦ issue_with current a s
]

-- Seconds. `parse_time` is the time crate's parser.
module _ (parse_time : String → Option ℕ) where
  pub access_token_needs_refresh : String → ℕ → Bool
  access_token_needs_refresh access_expires_at now =
      if len access_expires_at == 0 then true else elim (parse_time access_expires_at) [
        | none ↦ true
        | some expires_at ↦ leb expires_at (now + 120)
      ]

  -- `issue_device_session_without_lock()?; load()?.ok_or(Rejected)`
  pub renewed : Store × Option SessionError → Store × Result SessionError NativeCredentials
  renewed (s, some e) = (s, err e)
  renewed (s, none) = (s, load_some s)

  pub ensure_fresh : Answer → ℕ → Store → Store × Result SessionError NativeCredentials
  ensure_fresh a now s = elim (load_some s) [
    | err e ↦ (s, err e)
    | ok c ↦
        if access_token_needs_refresh c.access_expires_at now
        then renewed (issue_device_session a s)
        else (s, ok c)
  ]

  -- `device_control_access_token` past the test that there are credentials.
  pub access_credentials : Bool → Answer → ℕ → Store → Store × Result SessionError NativeCredentials
  access_credentials force_renewal a now s =
      if force_renewal then renewed (issue_device_session a s) else ensure_fresh a now s

  pub token_of :
      Store × Result SessionError NativeCredentials → Store × Result SessionError (Option String)
  token_of (s, err e) = (s, err e)
  token_of (s, ok c) = (s, ok (some c.access_token))

  pub device_control_access_token :
      Bool → Answer → ℕ → Store → Store × Result SessionError (Option String)
  device_control_access_token force_renewal a now s = elim s.load_error [
    | some e ↦ (s, err e)
    | none ↦ elim s.stored [
      | none ↦ (s, ok none)
      | some c ↦ token_of (access_credentials force_renewal a now s)
    ]
  ]
