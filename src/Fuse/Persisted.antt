-- ===== src/Fuse/Persisted.antt =====
-- core/space/fuse/controller.go: what mounting and unmounting persist for the next start.
use space_daemon.Exec.{pure, attempt, modify, ◌>>=◌}
use space_daemon.Exec.Returns.{bind-ok}
use space_daemon.Fuse.{
  Drive, Controller, on_world, should_mount, get_mount_path, mount, mount_at, unmount, remount,
  vfs_mount_at, serve,
}
use space_daemon.Outcome.{ok}
use space_daemon.Prelude.{String, true, false, ◌≡◌, refl, str_eq, Bool-cases, inl, inr}

-- The store reads what was set, and unmounting the drive does not change it.
pub record IsKeptStore {W : Type 0} (D : Drive W) : Type 0 where
  pub get_set :
      (k v : String) (w : W) → (D.st_set k v w).0 ≡ ok tt → (D.st_get k (D.st_set k v w).1).0 ≡ ok v
  pub get_unmount : (k : String) (w : W) → (D.st_get k (D.vfs_unmount w).1).0 ≡ (D.st_get k w).0

module _ {W : Type 0} (D : Drive W) (L : IsKeptStore D) where
  abbrev Reads : String → W → Type 0
  Reads v w = (D.st_get D.mount_fuse_drive w).0 ≡ ok v

  world-serve : (k : Controller W) → (serve D k).world ≡ k.world
  world-serve k = elim (Bool-cases k.is_served) [ inl e ↦ rw e refl | inr e ↦ rw e refl ]

  mount_at-Reads :
      (path : String) (k : Controller W)
      → (mount_at D path k).0 ≡ ok tt
      → Reads "true" (mount_at D path k).1.world
  unfolding modify attempt on_world
  mount_at-Reads path k e =
      let (r, first, e1) = bind-ok (attempt (vfs_mount_at D path)) _ k tt e in
      let (a, second, e2) = bind-ok (remount D path r) _ _ tt (rw e1 at e) in
      let (b, third, e3) =
        bind-ok (on_world D (D.st_set D.mount_fuse_drive "true")) _ _ tt (rw e2 at (rw e1 at e)) in
      rw (e1, e2, e3, world-serve) (L.get_set D.mount_fuse_drive "true" _ third)

  -- After the drive, which was not mounted, was mounted, the next start mounts it again: with a store
  -- that reads what was set.
  pub should_mount-mount :
      (k : Controller W)
      → D.is_mounted k.world ≡ false
      → (mount D k).0 ≡ ok tt
      → (should_mount D (mount D k).1.world).0 ≡ ok true
  unfolding mount should_mount ◌>>=◌ attempt pure
  should_mount-mount k m e =
      elim (Bool-cases (str_eq (D.get_string D.mount_fuse_drive "false") "true")) [
        | inl forced ↦ rw forced refl
        | inr asked ↦ rw (asked, m, mount_at-Reads (get_mount_path D k.world) _ (rw m at e)) refl
      ]

  unmounted-Reads :
      (k : Controller W)
      → D.is_mounted k.world ≡ true
      → (unmount D k).0 ≡ ok tt
      → Reads "false" (unmount D k).1.world
  unfolding unmount on_world
  unmounted-Reads k m e =
      let (a, set, same) =
        bind-ok (D.st_set D.mount_fuse_drive "false") (λ x. D.vfs_unmount) k.world tt (rw m at e) in
      rw (m, same, L.get_unmount) (L.get_set D.mount_fuse_drive "false" k.world set)

  -- After the drive was unmounted, the next start does not mount it, unless the configuration asks for
  -- it: with a store that reads what was set, and which unmounting does not change.
  should_mount-unmount :
      (k : Controller W)
      → D.is_mounted k.world ≡ true
      → str_eq (D.get_string D.mount_fuse_drive "false") "true" ≡ false
      → (unmount D k).0 ≡ ok tt
      → (should_mount D (unmount D k).1.world).0 ≡ ok false
  unfolding should_mount ◌>>=◌ attempt pure
  should_mount-unmount k m asked e = rw (asked, unmounted-Reads k m e) refl
