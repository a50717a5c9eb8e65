-- ===== src/Auth/Tests.antt =====
-- A call with a stored token.
use space_daemon.Auth.{authorize, can_skip_auth, grants}
use space_daemon.Auth.Grants.{
  authorize-OnlyGranted, authorize-store_app_token, header_of, OnlyGranted,
}
use space_daemon.Keychain.Tests.{
  in_memory, in_memory-IsKeptRing, masters_only, masters_only-IsCodec, master, empty, after_master,
  master_is_stored,
}
use space_daemon.Outcome.{ok}
use space_daemon.Prelude.{String, true, some, none, ◌≡◌, refl, if◌then◌else◌, str_eq}
use space_daemon.Prelude.Text.{lacks}

abbrev method : String
method = "/space.SpaceApi/ListBuckets"

key_lacks : lacks "." "k1" ≡ true
unfolding lacks
key_lacks = refl

secret_lacks : lacks "." "s1" ≡ true
unfolding lacks
secret_lacks = refl

granted : grants master method ≡ true
unfolding grants
granted = refl

authorize-store_app_token_example :
    (authorize in_memory masters_only str_eq (header_of master) method after_master).0
    ≡ ok (if can_skip_auth method then none else some master)
authorize-store_app_token_example =
    authorize-store_app_token in_memory masters_only in_memory-IsKeptRing masters_only-IsCodec
      str_eq master method empty refl key_lacks secret_lacks granted master_is_stored

is_authorized :
    (authorize in_memory masters_only str_eq (header_of master) method after_master).0
    ≡ ok (if can_skip_auth method then none else some master)
is_authorized =
    authorize-store_app_token in_memory masters_only in_memory-IsKeptRing masters_only-IsCodec
      str_eq master method empty refl key_lacks secret_lacks granted master_is_stored

authorize-OnlyGranted_example :
    OnlyGranted in_memory masters_only str_eq
      (header_of master)
      method
      after_master
      (if can_skip_auth method then none else some master)
authorize-OnlyGranted_example =
    authorize-OnlyGranted in_memory masters_only str_eq (header_of master) method after_master
      (if can_skip_auth method then none else some master) is_authorized
