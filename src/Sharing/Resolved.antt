-- ===== src/Sharing/Resolved.antt =====
-- The paths and keys that core/space/services/services_sharing.go works out before it shares, and what
-- becomes of the answer to an invitation.
use space_daemon.Exec.{pure}
use space_daemon.Exec.Returns.{bind-step}
use space_daemon.Model.{FullPath}
use space_daemon.Outcome.{ok, ok-injective}
use space_daemon.Prelude.{suc, List, [], ◌∷◌, length, ◌≡◌, ap, sym, ◌∙◌}
use space_daemon.Sharing.Invites.{Resolved, Space, resolve_full_paths}

module _ {W Ctx Pk Key : Type 0} (S : Space W Ctx Pk Key) where
  -- There is one resolved path and one key for each path.
  pub length-resolve_full_paths :
      (paths : List FullPath) (w : W) (out : Resolved)
      → (resolve_full_paths S paths w).0 ≡ ok out
      → (length out.0 ≡ length paths) × (length out.1 ≡ length paths)
  unfolding resolve_full_paths pure
  length-resolve_full_paths [] w out h =
      let same = ok-injective h in
      (ap (λ r. length r.0) (sym same), ap (λ r. length r.1) (sym same))
  length-resolve_full_paths (path ∷ paths) w out h =
      let (ep, resolved, h1) = bind-step _ _ w out h in
      let (rest, others, h2) = bind-step _ _ _ out h1 in
      let same = ok-injective h2 in
      let (m, n) = length-resolve_full_paths paths _ rest others in
      (ap (λ r. length r.0) (sym same) ∙ ap suc m, ap (λ r. length r.1) (sym same) ∙ ap suc n)
