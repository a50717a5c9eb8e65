-- ===== src/SecureClient/Tests/Runs.antt =====
-- Runs of the encrypting client on a bucket in memory.
use space_daemon.Bucket.{Item, is_meta_file_name}
use space_daemon.Crypto.{buffer, new_decrypt_reader, parse_keys, sealed}
use space_daemon.Crypto.Paths.{joined, squeeze}
use space_daemon.Crypto.RoundTrip.{path_name}
use space_daemon.Crypto.Tests.{Mark, marks, marks-AreCiphers, key80, keys, keys-AreSized, bytes}
use space_daemon.Exec.{pure, ◌>>=◌}
use space_daemon.Outcome.{ok}
use space_daemon.Prelude.{
  String, ◌<>◌, Bool, true, false, List, [], ◌∷◌, some, none, ◌≡◌, refl, ◌∙◌,
}
use space_daemon.Prelude.Map.{lookup}
use space_daemon.Prelude.Paths.{file_part}
use space_daemon.Prelude.Text.{lacks}
use space_daemon.SecureClient.{SecureBucketClient, overwrite_decrypted_item, push_path, remove_path}
use space_daemon.SecureClient.Pulling.{
  any_pull, Puller, pull_file_from_local, pull_file_from_dht, pull_file_from_client, pull_path,
  race_pull_file, get_file_cache_key,
}
use space_daemon.SecureClient.Buckets.{Files, Pushed, Removed, names}
use space_daemon.SecureClient.Cache.{IsCoherent}
use space_daemon.SecureClient.Listing.{overwrite_decrypted_item-path_name}
use space_daemon.SecureClient.Pulls.{pull_path-plain, pull_path-returns}
use space_daemon.SecureClient.Races.{race_pull_file-IsCoherent}
use space_daemon.SecureClient.Refines.{opened, plain_files, push_path-Pushed, remove_path-Removed}
use space_daemon.SecureClient.Available.{has_client}
use space_daemon.SecureClient.Tests.{
  World, stored, addressed, held, put, in_memory, in_memory-IsBucketClient,
  in_memory-IsContentAddressed,
}

abbrev client : Bool → SecureBucketClient World Mark (Unit {0})
client remote = record { client = in_memory; lib = marks; is_remote = remote }

key80_parsed : parse_keys key80 ≡ ok keys
unfolding parse_keys
key80_parsed = refl

abbrev empty_bucket : World
empty_bucket = record { files = λ b path. none; cache = [] }

abbrev raw_name : String → String
raw_name path = path_name marks marks-AreCiphers keys keys-AreSized path

abbrev message : List Mark
message = (sealed marks keys (buffer (bytes "hi"))).content

-- a bucket that holds one encrypted file
abbrev one_file : World
one_file = record {
  files = put "personal" (names (raw_name "docs/a")) message (λ b path. none);
  cache = [];
}

abbrev view : World → Files Mark
view = plain_files (client false) stored marks-AreCiphers keys keys-AreSized

push_path-Pushed_example :
    Pushed
      (view empty_bucket)
      (view
        (push_path
          (client false)
          (some key80)
          "personal"
          "/docs/a"
          (buffer (bytes "hi"))
          empty_bucket).1)
      "personal"
      (names "/docs/a")
      (bytes "hi")
unfolding push_path ◌>>=◌
push_path-Pushed_example =
    push_path-Pushed (client false) stored marks-AreCiphers keys keys-AreSized key80 key80_parsed
      refl in_memory-IsBucketClient "personal" "/docs/a" (bytes "hi") empty_bucket _ refl

remove_path-Removed_example :
    Removed
      (view one_file)
      (view (remove_path (client false) (some key80) "personal" "docs" one_file).1)
      "personal"
      (names "docs")
unfolding remove_path ◌>>=◌
remove_path-Removed_example =
    remove_path-Removed (client false) stored marks-AreCiphers keys keys-AreSized key80 key80_parsed
      refl in_memory-IsBucketClient "personal" "docs" one_file _ refl

nothing_cached : (text : String) → ok none ≡ ok (lookup (get_file_cache_key text) one_file.cache)
unfolding lookup
nothing_cached text = refl

one_file-IsCoherent : (remote : Bool) → IsCoherent (client remote) stored addressed held one_file
unfolding IsCoherent
one_file-IsCoherent remote text cid binary content h = absurd (cc (nothing_cached text ∙ h))

abbrev order : Puller × List Puller
order = (pull_file_from_local, pull_file_from_client ∷ (pull_file_from_dht ∷ []))

is_pulled :
    (pull_path (client false) order [] (some key80) "personal" "docs/a" one_file).0
    ≡ ok (bytes "hi")
unfolding pull_path ◌>>=◌ lookup names path_name joined
is_pulled = refl

pull_path-plain_example : view one_file "personal" (names "docs/a") ≡ some (bytes "hi")
pull_path-plain_example =
    pull_path-plain (client false) stored addressed held marks-AreCiphers keys keys-AreSized key80
      key80_parsed refl in_memory-IsBucketClient in_memory-IsContentAddressed order [] "personal"
      "docs/a" (bytes "hi") one_file (one_file-IsCoherent false) is_pulled

is_held : view one_file "personal" (names "docs/a") ≡ some (bytes "hi")
unfolding plain_files opened names path_name joined new_decrypt_reader
is_held = refl

pull_path-returns_example :
    (pull_path (client false) order [] (some key80) "personal" "docs/a" one_file).0
    ≡ ok (bytes "hi")
unfolding has_client names path_name joined any_pull pure
pull_path-returns_example =
    pull_path-returns (client false) stored addressed held marks-AreCiphers keys keys-AreSized key80
      key80_parsed refl in_memory-IsBucketClient in_memory-IsContentAddressed order [] "personal"
      "docs/a" message (bytes "hi") one_file refl (one_file-IsCoherent false) refl refl refl refl
      refl is_held

race_pull_file-IsCoherent_example :
    IsCoherent
      (client true)
      stored
      addressed
      held
      (race_pull_file (client true) order [] "personal" (raw_name "docs/a") one_file).1
race_pull_file-IsCoherent_example =
    race_pull_file-IsCoherent (client true) stored addressed held in_memory-IsBucketClient
      in_memory-IsContentAddressed order [] "personal" (raw_name "docs/a") one_file
      (one_file-IsCoherent true)

abbrev listed : Item
listed = record {
  name = raw_name "a";
  path = "/ipfs/bafy/" <> raw_name "docs/a";
  is_dir = false;
  cid = "bafy";
  size = 66;
  updated_at = 0;
}

overwrite_decrypted_item-path_name_example :
    overwrite_decrypted_item (client false) key80 listed
    ≡ record listed { name = squeeze true "a"; path = squeeze true "docs/a"; size = 2 }
unfolding lacks is_meta_file_name file_part path_name joined
overwrite_decrypted_item-path_name_example =
    overwrite_decrypted_item-path_name (client false) marks-AreCiphers keys keys-AreSized key80
      key80_parsed refl listed "a" "bafy" "docs/a" 2 refl refl refl refl refl
