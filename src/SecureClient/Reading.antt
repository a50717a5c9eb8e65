-- ===== src/SecureClient/Reading.antt =====
-- core/textile/secure_bucket_client.go: the pulls read only.
use space_daemon.Exec.{Exec, pure}
use space_daemon.Exec.Follows.{
  Follows, Unmoved, unmoved, Follows-pure, Follows-lift, Follows-attempt, Follows-bind,
}
use space_daemon.Outcome.{Result, ok, err}
use space_daemon.Prelude.{String, Bool, true, false, List, [], ◌∷◌, Option}
use space_daemon.SecureClient.{SecureBucketClient}
use space_daemon.SecureClient.Pulling.{
  Puller, pull_file_from_local, pull_file_from_dht, pull_file_from_client, pull, pull_from_client,
  pull_from_local, pull_from_dht, first_pull, any_pull,
}
use space_daemon.SecureClient.Buckets.{Files, IsBucketClient, IsContentAddressed}

module _ {S Byte Roles : Type 0} (c : SecureBucketClient S Byte Roles) (stored : S → Files Byte)
    (addressed held : String → Option (List Byte)) (buckets : IsBucketClient c.client stored)
    (ipfs : IsContentAddressed c.client stored addressed held) where
  pub reading : (p : Puller) (bucket path : String) → Follows Unmoved (pull c p bucket path)
  unfolding pull_from_client pull_from_local pull_from_dht
  reading pull_file_from_client bucket path =
      Follows-bind unmoved _ _ (record { at = buckets.pulling bucket path })
        (λ content. Follows-pure unmoved _)
  reading pull_file_from_local bucket path =
      Follows-bind unmoved _ _ (record { at = buckets.listing bucket path })
        (λ dir.
          Follows-bind unmoved _ _ (Follows-attempt unmoved _ (record { at = ipfs.st_getting _ }))
            (λ found. Follows-bind unmoved _ _ (Follows-lift unmoved _) (λ binary.
              Follows-bind unmoved _ _ (Follows-lift unmoved _) (λ cid.
                Follows-bind unmoved _ _ (record { at = ipfs.getting cid })
                  (λ node.
                    Follows-bind unmoved _ _ (Follows-lift unmoved _)
                      (λ content. Follows-pure unmoved _))))))
  reading pull_file_from_dht bucket path =
      Follows-bind unmoved _ _ (record { at = buckets.listing bucket path })
        (λ dir. Follows-bind unmoved _ _ (Follows-lift unmoved _) (λ cid.
          Follows-bind unmoved _ _ (Follows-lift unmoved _) (λ host.
            Follows-bind unmoved _ _ (record { at = ipfs.downloading host cid })
              (λ content. Follows-pure unmoved _))))

  next_pull :
      (r : Result (List Byte × Bool)) (q : Puller) (later : List Puller) (bucket path : String)
      → ((bucket path : String) → Follows Unmoved (first_pull c q later bucket path))
      → Follows Unmoved (elim r as (λ _. Exec S (List Byte × Bool)) [
        | ok response ↦ pure response
        | err e ↦ first_pull c q later bucket path
      ])
  next_pull (ok response) q later bucket path h = Follows-pure unmoved response
  next_pull (err e) q later bucket path h = h bucket path

  pub reading_first :
      (p : Puller) (later : List Puller) (bucket path : String)
      → Follows Unmoved (first_pull c p later bucket path)
  unfolding first_pull
  reading_first p [] bucket path = reading p bucket path
  reading_first p (q ∷ later) bucket path =
      Follows-bind unmoved _ _ (Follows-attempt unmoved _ (reading p bucket path))
        (λ r. next_pull r q later bucket path (reading_first q later))

  next_any :
      (r : Result (List Byte × Bool)) (late : List Puller) (bucket path : String)
      → Follows Unmoved (any_pull c late bucket path)
      → Follows Unmoved (elim r as (λ _. Exec S Bool) [
        | ok response ↦ pure true
        | err e ↦ any_pull c late bucket path
      ])
  next_any (ok response) late bucket path h = Follows-pure unmoved true
  next_any (err e) late bucket path h = h

  pub reading_any :
      (late : List Puller) (bucket path : String) → Follows Unmoved (any_pull c late bucket path)
  unfolding any_pull
  reading_any [] bucket path = Follows-pure unmoved false
  reading_any (p ∷ late) bucket path =
      Follows-bind unmoved _ _ (Follows-attempt unmoved _ (reading p bucket path))
        (λ r. next_any r late bucket path (reading_any late bucket path))
