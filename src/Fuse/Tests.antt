-- ===== src/Fuse/Tests.antt =====
-- A drive and a store in memory.
use space_daemon.Exec.{attempt, modify, ◌>>=◌}
use space_daemon.Fuse.{Drive, Controller, should_mount, mount, on_world}
use space_daemon.Fuse.Persisted.{IsKeptStore, should_mount-mount}
use space_daemon.Outcome.{Result, ok, err, external}
use space_daemon.Prelude.{String, Bool, true, false, Option, none, some, [], ◌≡◌, refl, eq_refl}
use space_daemon.Prelude.Map.{Map, lookup, insert, lookup-insert}

record Host : Type 0 where
  pub drive : Bool
  pub store : Map String

abbrev found : Option String → Result String
found none = err (external "Key not found")
found (some v) = ok v

abbrev drive : Drive Host
drive = record {
  get_string = λ k default. default;
  mount_fuse_drive = "mountFuseDrive";
  fuse_drive_name = "fuseDriveName";
  fuse_mount_path = "fuseMountPath";
  is_mounted = λ w. w.drive;
  vfs_mount = λ path name w. (ok tt, record w { drive = true });
  vfs_unmount = λ w. (ok tt, record w { drive = false });
  st_get = λ k w. (found (lookup k w.store), w);
  st_set = λ k v w. (ok tt, record w { store = insert k v w.store });
  is_installed = λ w. (ok true, w);
  is_exit_status_64 = λ e. false;
  umount_command = λ path w. w;
  remove_all = λ path w. w;
  goos = "linux";
  home = ok "/home/user";
  stat_is_exist = λ path w. false;
  digit = λ i. "0";
}

drive-IsKeptStore : IsKeptStore drive
drive-IsKeptStore = record {
  get_set = λ k v w e. rw (lookup-insert k k v w.store, eq_refl k) refl;
  get_unmount = λ k w. refl;
}

abbrev off : Controller Host
off = record {
  is_served = false;
  mount_path = "";
  goroutines = 0;
  world = record { drive = false; store = [] };
}

mounts : (mount drive off).0 ≡ ok tt
unfolding mount ◌>>=◌ attempt modify on_world
mounts = refl

should_mount-mount_example : (should_mount drive (mount drive off).1.world).0 ≡ ok true
should_mount-mount_example = should_mount-mount drive drive-IsKeptStore off refl mounts
