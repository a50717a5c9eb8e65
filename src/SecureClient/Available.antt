-- ===== src/SecureClient/Available.antt =====
-- core/textile/secure_bucket_client.go: a file that the client of the SDK can read is read through
-- the race too, whichever of the other pulls fail.
use space_daemon.Exec.{Exec, pure, lift, attempt, ◌>>=◌}
use space_daemon.Exec.Returns.{bind-step}
use space_daemon.Outcome.{Err, Result, ok, err, ok-injective}
use space_daemon.Prelude.{
  String, Bool, true, false, List, [], ◌∷◌, Option, some, ◌≡◌, refl, ap, sym, ◌∙◌, subst,
}
use space_daemon.SecureClient.{SecureBucketClient}
use space_daemon.SecureClient.Pulling.{
  Puller, pull_file_from_local, pull_file_from_dht, pull_file_from_client, pull, pull_from_client,
  pull_from_local, pull_from_dht, first_pull, run_race, any_pull, race_pull_file,
}
use space_daemon.SecureClient.Buckets.{Files, IsBucketClient, IsContentAddressed}
use space_daemon.SecureClient.Cache.{IsCoherent, pull-right}
use space_daemon.SecureClient.Reading.{reading, reading_any}

-- the race has the client's pull
unfoldable pub has_client : Puller → List Puller → Bool
has_client pull_file_from_client later = true
has_client pull_file_from_local [] = false
has_client pull_file_from_local (q ∷ later) = has_client q later
has_client pull_file_from_dht [] = false
has_client pull_file_from_dht (q ∷ later) = has_client q later

module _ {S Byte Roles : Type 0} (c : SecureBucketClient S Byte Roles) (stored : S → Files Byte)
    (addressed held : String → Option (List Byte)) (buckets : IsBucketClient c.client stored)
    (ipfs : IsContentAddressed c.client stored addressed held) (local : c.is_remote ≡ false) where
  uncached :
      (p : Puller) (bucket path : String) (s : S) (response : List Byte × Bool)
      → (pull c p bucket path s).0 ≡ ok response
      → response.1 ≡ false
  unfolding pull_from_client pull_from_local pull_from_dht pure
  uncached pull_file_from_client bucket path s response h =
      let (content, _, e) = bind-step (c.client.pull_path bucket path) _ s response h in
      ap (λ (r : List Byte × Bool). r.1) (sym (ok-injective e)) ∙ local
  uncached pull_file_from_local bucket path s response h =
      let (_, _, h1) = bind-step _ _ s response h in
      let (_, _, h2) = bind-step _ _ _ response h1 in
      let (_, _, h3) = bind-step _ _ _ response h2 in
      let (_, _, h4) = bind-step _ _ _ response h3 in
      let (_, _, h5) = bind-step _ _ _ response h4 in
      let (_, _, e) = bind-step _ _ _ response h5 in
      ap (λ (r : List Byte × Bool). r.1) (sym (ok-injective e))
  uncached pull_file_from_dht bucket path s response h =
      let (_, _, h1) = bind-step _ _ s response h in
      let (_, _, h2) = bind-step _ _ _ response h1 in
      let (_, _, h3) = bind-step _ _ _ response h2 in
      let (_, _, e) = bind-step _ _ _ response h3 in
      ap (λ (r : List Byte × Bool). r.1) (sym (ok-injective e))

  next-returns :
      (r : Result (List Byte × Bool)) (q : Puller) (later : List Puller) (bucket path : String)
      (s : S) (message : List Byte)
      → ((x : List Byte × Bool) → r ≡ ok x → x ≡ (message, false))
      → ((e : Err) → r ≡ err e → (first_pull c q later bucket path s).0 ≡ ok (message, false))
      → (elim r as (λ _. Exec S (List Byte × Bool)) [
        | ok x ↦ pure x
        | err e ↦ first_pull c q later bucket path
      ]
          s).0
        ≡ ok (message, false)
  unfolding pure
  next-returns (ok x) q later bucket path s message h k = ap ok (h x refl)
  next-returns (err e) q later bucket path s message h k = k e refl

  module _ (bucket path : String) (s : S) (message : List Byte)
      (coherent : IsCoherent c stored addressed held s)
      (read : (c.client.pull_path bucket path s).0 ≡ ok message) where
    response_is :
        (p : Puller) (x : List Byte × Bool)
        → (pull c p bucket path s).0 ≡ ok x
        → x ≡ (message, false)
    response_is p x h =
        let right = pull-right c stored addressed held buckets ipfs p bucket path s x coherent h in
        let known = buckets.pulled bucket path s message read in
        let first : some x.0 ≡ some message = sym right ∙ known in
        let second = uncached p bucket path s x h in cc (first, second)

    client_returns : (pull_from_client c bucket path s).0 ≡ ok (message, false)
    unfolding pull_from_client pure ◌>>=◌
    client_returns = rw (read, local) refl

    still_to_come :
        (p q : Puller) (later : List Puller) (e : Err)
        → has_client p (q ∷ later) ≡ true
        → (pull c p bucket path s).0 ≡ err e
        → has_client q later ≡ true
    unfolding has_client
    still_to_come pull_file_from_client q later e h failed = absurd (cc (client_returns, failed))
    still_to_come pull_file_from_local q later e h failed = h
    still_to_come pull_file_from_dht q later e h failed = h

    pub first_pull-returns :
        (p : Puller) (later : List Puller)
        → has_client p later ≡ true
        → (first_pull c p later bucket path s).0 ≡ ok (message, false)
    unfolding first_pull attempt ◌>>=◌ has_client
    first_pull-returns pull_file_from_client [] h = client_returns
    first_pull-returns pull_file_from_local [] h = absurd (cc h)
    first_pull-returns pull_file_from_dht [] h = absurd (cc h)
    first_pull-returns p (q ∷ later) h =
        let unmoved = (reading c stored addressed held buckets ipfs p bucket path).at s in
        subst
          (λ t.
            (elim (pull c p bucket path s).0 as (λ _. Exec S (List Byte × Bool)) [
              | ok x ↦ pure x
              | err e ↦ first_pull c q later bucket path
            ]
              t).0
            ≡ ok (message, false))
          (sym unmoved)
          (next-returns _ q later bucket path s message (response_is p)
            (λ e failed. first_pull-returns q later (still_to_come p q later e h failed)))

    run_race-returns :
        (order : Puller × List Puller)
        → has_client order.0 order.1 ≡ true
        → c.client.temp_file ≡ ok tt
        → c.client.reopen ≡ ok tt
        → (run_race c order bucket path s).0 ≡ ok message
    unfolding run_race lift pure ◌>>=◌
    run_race-returns order h temp reopen =
        rw (temp, first_pull-returns order.0 order.1 h, reopen) refl

    -- a race that no late pull blocks
    pub race_pull_file-returns :
        (order : Puller × List Puller) (late : List Puller)
        → has_client order.0 order.1 ≡ true
        → (any_pull c late bucket path s).0 ≡ ok false
        → c.client.temp_file ≡ ok tt
        → c.client.reopen ≡ ok tt
        → (race_pull_file c order late bucket path s).0 ≡ ok message
    unfolding race_pull_file attempt lift ◌>>=◌
    race_pull_file-returns order late h free temp reopen =
        let unmoved = (reading_any c stored addressed held buckets ipfs late bucket path).at s in
        let run = run_race-returns order h temp reopen in rw (free, unmoved, run) refl
