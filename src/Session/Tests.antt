-- ===== src/Session/Tests.antt =====
-- Tokens renewed by src/session/client.rs.
use Prim.Native.String.{String}
use text.Mathlib.Text.{◌==◌ as str_eq}
use rockcast.Prelude.{ℕ, true, false, Option, none, some, if◌then◌else◌, ◌≡◌, refl}
use rockcast.Prelude.Results.{err, ok}
use rockcast.Session.{
  unavailable, unauthorized, NativeCredentials, new_credentials, Answer, no_answer, answer, Store,
  load_some, save, clear, is_success, keep_session, issue_with, issue_device_session,
  access_token_needs_refresh, renewed, ensure_fresh, access_credentials, token_of,
  device_control_access_token,
}
use rockcast.Session.Renewal.{IsHonest, access_credentials-IsHonest}

-- One time stamp is known.
abbrev clock : String → Option ℕ
clock s = if str_eq s "noon" then some 43200 else none

abbrev credentials : NativeCredentials
credentials = record {
  device_id = "device";
  device_secret = "0123456789abcdef0123456789abcdef";
  access_token = "0123456789abcdef";
  access_expires_at = "noon";
}

abbrev store : Store
store = record {
  stored = some credentials;
  load_error = none;
  save_error = none;
  clear_error = none;
}

abbrev issued : Answer
issued =
    answer 200 false
      (some (record { access_token = "fedcba9876543210"; access_expires_at = "later" }))

still_fresh :
    (device_control_access_token clock false no_answer 43079 store).1 ≡ ok (some "0123456789abcdef")
unfolding device_control_access_token access_credentials ensure_fresh load_some
    access_token_needs_refresh token_of
still_fresh = refl

renews :
    (device_control_access_token clock false issued 43080 store).1 ≡ ok (some "fedcba9876543210")
unfolding device_control_access_token access_credentials ensure_fresh load_some
    access_token_needs_refresh renewed issue_device_session issue_with is_success keep_session
    new_credentials save token_of
renews = refl

revokes :
    access_credentials clock true (answer 401 true none) 0 store
    ≡ (record store { stored = none }, err unauthorized)
unfolding access_credentials renewed issue_device_session load_some issue_with clear
revokes = refl

kept_on_other_refusals :
    access_credentials clock true (answer 401 false none) 0 store ≡ (store, err unavailable)
unfolding access_credentials renewed issue_device_session load_some issue_with
kept_on_other_refusals = refl

access_credentials-IsHonest_example :
    IsHonest issued store (access_credentials clock true issued 43080 store)
access_credentials-IsHonest_example = access_credentials-IsHonest clock true issued 43080 store
