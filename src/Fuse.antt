-- ===== src/Fuse.antt =====
-- core/space/fuse: the controller of the virtual drive. The file system, its installer, the store, the
-- configuration and the operating system are parameters.
pub mod Persisted
mod Tests
use space_daemon.Exec.{Exec, pure, raise, lift, attempt, gets, modify, ◌>>=◌, ◌>>◌, when}
use space_daemon.Outcome.{Err, Result, ok, err}
use space_daemon.Prelude.{
  ℕ, zero, suc, ◌+◌, ◌-◌, String, Char, Bool, true, false, not, ◌||◌, List, [], ◌∷◌, Option, some,
  none, ◌<>◌, if◌then◌else◌, str_eq,
}
use space_daemon.Prelude.Text.{join, split}

pub record Drive (W : Type 0) : Type 0 where
  -- cfg.GetString, and the names of the settings
  pub get_string : String → String → String
  pub mount_fuse_drive : String
  pub fuse_drive_name : String
  pub fuse_mount_path : String
  -- the VFS
  pub is_mounted : W → Bool
  pub vfs_mount : String → String → Exec W (Unit {0})
  pub vfs_unmount : Exec W (Unit {0})
  -- core/store
  pub st_get : String → Exec W String
  pub st_set : String → String → Exec W (Unit {0})
  pub is_installed : Exec W Bool
  -- strings.Contains(err.Error(), "exit status 64")
  pub is_exit_status_64 : Err → Bool
  -- the command `umount`, and os.RemoveAll: their errors are only logged
  pub umount_command : String → W → W
  pub remove_all : String → W → W
  -- runtime.GOOS, homedir.Dir
  pub goos : String
  pub home : Result String
  -- os.IsExist(err), where `_, err := os.Stat(path)`
  pub stat_is_exist : String → W → Bool
  -- fmt's text of an index
  pub digit : ℕ → String

-- The fields of `Controller` that change, with the world; `goroutines` are those that serve the drive.
pub record Controller (W : Type 0) : Type 0 where
  pub is_served : Bool
  pub mount_path : String
  pub goroutines : ℕ
  pub world : W

pub data State : Type 0 where
  unsupported not_installed unmounted mounted error : State

abbrev pub default_fuse_drive_name : String
default_fuse_drive_name = "Space"

-- strings.TrimRight(s, "/")
abbrev keep_slash : Bool → Char → String → String
keep_slash true c Prim.Native.String.[] = ""
keep_slash true c (Prim.Native.String.◌∷◌ d s) =
    Prim.Native.String.◌∷◌ c (Prim.Native.String.◌∷◌ d s)
keep_slash false c s = Prim.Native.String.◌∷◌ c s

unfoldable pub trim_slashes : String → String
trim_slashes Prim.Native.String.[] = ""
trim_slashes (Prim.Native.String.◌∷◌ c s) =
    keep_slash (str_eq (Prim.Native.String.◌∷◌ c "") "/") c (trim_slashes s)

abbrev pub supported_os : String → Bool
supported_os os = str_eq os "linux" || str_eq os "darwin"

module _ {W : Type 0} (D : Drive W) where
  unfoldable pub path_exists : String → W → Bool
  path_exists path w = D.stat_is_exist path w

  abbrev pub replace_home : String → Result String → String
  replace_home path (ok home) = trim_slashes (join home (split "~" path))
  replace_home path (err e) = path

  -- the loop over the suffixes, from the `i`-th of `n` more
  unfoldable pub free_suffix : ℕ → ℕ → String → W → String
  free_suffix zero i path w = path
  free_suffix (suc n) i path w =
      let later = free_suffix n (i + 1) path w in
      if not (path_exists (path <> D.digit i) w) then path <> D.digit i else later

  unfoldable pub get_mount_path : W → String
  get_mount_path w =
      let path =
        replace_home (D.get_string D.fuse_mount_path ("~/" <> default_fuse_drive_name)) D.home in
      if path_exists path w then free_suffix 10 0 path w else path

  -- a call that leaves the controller's own fields alone
  unfoldable pub on_world : {A : Type 0} → Exec W A → Exec (Controller W) A
  on_world m k = let (r, w) = m k.world in (r, record k { world = w })

  -- err == nil && string(mountFuseDrive) == "true"
  abbrev pub is_true : Result String → Bool
  is_true (ok state) = str_eq state "true"
  is_true (err e) = false

  unfoldable pub should_mount : Exec W Bool
  should_mount =
      if str_eq (D.get_string D.mount_fuse_drive "false") "true"
      then pure true
      else do state ← attempt (D.st_get D.mount_fuse_drive); pure (is_true state)

  abbrev pub remove_mounted_path : Controller W → Controller W
  remove_mounted_path k =
      if not (str_eq k.mount_path "")
      then record k { world = D.remove_all k.mount_path (D.umount_command k.mount_path k.world) }
      else k

  -- the goroutine is started; what it does is `serve_begins` and, when the drive ends, `serve_ends`
  abbrev pub serve : Controller W → Controller W
  serve k = if k.is_served then k else record k { goroutines = k.goroutines + 1 }

  unfoldable pub serve_begins : Controller W → Controller W
  serve_begins k = record k { is_served = true }

  unfoldable pub serve_ends : Controller W → Controller W
  serve_ends k = record k { is_served = false; goroutines = k.goroutines - 1 }

  abbrev pub vfs_mount_at : String → Exec (Controller W) (Unit {0})
  vfs_mount_at path =
      on_world (D.vfs_mount path (D.get_string D.fuse_drive_name default_fuse_drive_name))

  abbrev pub remount : String → Result (Unit {0}) → Exec (Controller W) (Unit {0})
  remount path (ok a) = pure tt
  remount path (err e) =
      if not (D.is_exit_status_64 e)
      then raise e
      else do attempt (on_world D.vfs_unmount); modify remove_mounted_path; vfs_mount_at path

  abbrev pub mount_at : String → Exec (Controller W) (Unit {0})
  mount_at path = do
    first ← attempt (vfs_mount_at path)
    remount path first
    on_world (D.st_set D.mount_fuse_drive "true")
    modify serve

  unfoldable pub mount : Exec (Controller W) (Unit {0})
  unfolding get_mount_path
  mount k =
      if D.is_mounted k.world
      then (ok tt, k)
      else (let path = get_mount_path k.world in mount_at path (record k { mount_path = path }))

  unfoldable pub unmount : Exec (Controller W) (Unit {0})
  unmount k =
      if not (D.is_mounted k.world)
      then (ok tt, k)
      else on_world (do D.st_set D.mount_fuse_drive "false"; D.vfs_unmount) k

  unfoldable pub shutdown : Exec (Controller W) (Unit {0})
  unfolding unmount
  shutdown = unmount

  -- `GetMountPath` of the controller
  unfoldable pub mounted_at : Controller W → String
  unfolding get_mount_path
  mounted_at k = if not (D.is_mounted k.world) then "" else get_mount_path k.world

  abbrev pub installed_state : Bool → State
  installed_state installed = if not installed then not_installed else unmounted

  -- The state `ERROR`, which is returned beside the installer's error, is that error.
  unfoldable pub get_fuse_state : Exec (Controller W) State
  get_fuse_state k =
      if not (supported_os D.goos)
      then (ok unsupported, k)
      else if D.is_mounted k.world
      then (ok mounted, k)
      else on_world (do installed ← D.is_installed; pure (installed_state installed)) k
