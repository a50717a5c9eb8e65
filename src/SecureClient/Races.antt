-- ===== src/SecureClient/Races.antt =====
-- core/textile/secure_bucket_client.go, racePullFile: what the race returns, whatever the order in
-- which the pulls end, and what it leaves in the cache.
use space_daemon.Exec.{raise, Exec, pure, lift, attempt}
use space_daemon.Exec.Returns.{bind-step, bind-leaves}
use space_daemon.Outcome.{Result, ok, err, ok-injective, never_returns}
use space_daemon.Prelude.{
  String, Bool, true, false, List, [], ◌∷◌, Option, some, if◌then◌else◌, ◌≡◌, refl, ap, sym, ◌∙◌,
  subst,
}
use space_daemon.SecureClient.{SecureBucketClient}
use space_daemon.SecureClient.Pulling.{
  Puller, pull, first_pull, cache_file, run_race, any_pull, race_pull_file,
}
use space_daemon.SecureClient.Buckets.{Files, IsBucketClient, IsContentAddressed, names}
use space_daemon.SecureClient.Cache.{IsCoherent, pull-right}
use space_daemon.SecureClient.Caching.{cache_file-IsCoherent}
use space_daemon.SecureClient.Reading.{reading, reading_first, reading_any}

module _ {S Byte Roles : Type 0} (c : SecureBucketClient S Byte Roles) (stored : S → Files Byte)
    (addressed held : String → Option (List Byte)) (buckets : IsBucketClient c.client stored)
    (ipfs : IsContentAddressed c.client stored addressed held) where
  abbrev Coherent : S → Type 0
  Coherent = IsCoherent c stored addressed held

  next-right :
      (r : Result (List Byte × Bool)) (q : Puller) (later : List Puller) (bucket path : String)
      (s : S) (response : List Byte × Bool)
      → ((first_pull c q later bucket path s).0 ≡ ok response
          → stored s bucket (names path) ≡ some response.0)
      → ((x : List Byte × Bool) → r ≡ ok x → stored s bucket (names path) ≡ some x.0)
      → (elim r as (λ _. Exec S (List Byte × Bool)) [
        | ok x ↦ pure x
        | err e ↦ first_pull c q later bucket path
      ]
          s).0
        ≡ ok response
      → stored s bucket (names path) ≡ some response.0
  unfolding pure
  next-right (ok x) q later bucket path s response h k e =
      k x refl ∙ ap (λ (r : List Byte × Bool). some r.0) (ok-injective e)
  next-right (err e) q later bucket path s response h k same = h same

  pub first_pull-right :
      (p : Puller) (later : List Puller) (bucket path : String) (s : S)
      (response : List Byte × Bool)
      → Coherent s
      → (first_pull c p later bucket path s).0 ≡ ok response
      → stored s bucket (names path) ≡ some response.0
  unfolding first_pull attempt
  first_pull-right p [] bucket path s response coherent h =
      pull-right c stored addressed held buckets ipfs p bucket path s response coherent h
  first_pull-right p (q ∷ later) bucket path s response coherent h =
      let right = pull-right c stored addressed held buckets ipfs p bucket path s in
      let (r, e, h1) = bind-step (attempt (pull c p bucket path)) _ s response h in
      let unmoved = (reading c stored addressed held buckets ipfs p bucket path).at s in
      next-right r q later bucket path s response
        (first_pull-right q later bucket path s response coherent)
        (λ x same. right x coherent (ok-injective e ∙ same))
        (subst
          (λ t.
            (elim r as (λ _. Exec S (List Byte × Bool)) [
              | ok x ↦ pure x
              | err e ↦ first_pull c q later bucket path
            ]
              t).0
            ≡ ok response)
          unmoved h1)

  -- what the winner gives is the file that is stored
  run_race-right :
      (order : Puller × List Puller) (bucket path : String) (s : S) (content : List Byte)
      → Coherent s
      → (run_race c order bucket path s).0 ≡ ok content
      → stored s bucket (names path) ≡ some content
  unfolding run_race lift pure
  run_race-right order bucket path s content coherent h =
      let (_, _, h1) = bind-step _ _ s content h in
      let (response, first, h2) =
        bind-step (first_pull c order.0 order.1 bucket path) _ s content h1 in
      let (_, _, h3) = bind-step _ _ _ content h2 in
      let (_, _, h4) = bind-step _ _ _ content h3 in
      first_pull-right order.0 order.1 bucket path s response coherent first
      ∙ ap some (ok-injective h4)

  when_cached :
      (b : Bool) (bucket path : String) (content : List Byte) (s : S)
      → Coherent s
      → stored s bucket (names path) ≡ some content
      → Coherent ((if b then cache_file c bucket path content else pure tt) s).1
  unfolding pure
  when_cached true bucket path content s coherent right =
      cache_file-IsCoherent c stored addressed held buckets ipfs bucket path content s coherent
        right
  when_cached false bucket path content s coherent right = coherent

  after_first :
      (order : Puller × List Puller) (bucket path : String) (s : S)
      → Coherent s
      → (response : List Byte × Bool) → (first_pull c order.0 order.1 bucket path s).0 ≡ ok response
      → Coherent
          ((if response.1 then cache_file c bucket path response.0 else pure tt)
            (first_pull c order.0 order.1 bucket path s).1).1
  after_first order bucket path s coherent response first =
      let unmoved =
        (reading_first c stored addressed held buckets ipfs order.0 order.1 bucket path).at s in
      when_cached response.1 bucket path response.0 _ (subst Coherent (sym unmoved) coherent) (
        ap (λ t. stored t bucket (names path)) unmoved
        ∙ first_pull-right order.0 order.1 bucket path s response coherent first)

  -- What the cache has is right behind the race too.
  run_race-IsCoherent :
      (order : Puller × List Puller) (bucket path : String) (s : S)
      → Coherent s
      → Coherent (run_race c order bucket path s).1
  unfolding run_race lift pure
  run_race-IsCoherent order bucket path s coherent =
      let still =
        subst Coherent
          (sym
            ((reading_first c stored addressed held buckets ipfs order.0 order.1 bucket path).at s))
          coherent in
      bind-leaves Coherent _ _ s (λ e _. coherent)
        (λ u _.
          bind-leaves Coherent (first_pull c order.0 order.1 bucket path) _ s (λ e _. still)
            (λ response first.
              bind-leaves Coherent _ _ _ (λ e _. still)
                (λ u _.
                  bind-leaves Coherent _ _ _
                    (λ e _. after_first order bucket path s coherent response first)
                    (λ u _. after_first order bucket path s coherent response first))))

  -- what the deferred function makes of the result changes no state
  left_with :
      (blocked : Bool) (r : Result (List Byte)) (s : S)
      → ((if blocked then raise never_returns else lift r) s).1 ≡ s
  unfolding lift raise
  left_with true r s = refl
  left_with false (ok x) s = refl
  left_with false (err e) s = refl

  -- Where the client of the SDK keeps what it promises and CIDs address contents: if what the cache
  -- has for a CID of a bucket is always a CID of the same file, the same is so after a race to pull a
  -- file, whether it returns or fails.
  pub race_pull_file-IsCoherent :
      (order : Puller × List Puller) (late : List Puller) (bucket path : String) (s : S)
      → Coherent s
      → Coherent (race_pull_file c order late bucket path s).1
  unfolding race_pull_file attempt
  race_pull_file-IsCoherent order late bucket path s coherent =
      let still =
        subst Coherent
          (sym ((reading_any c stored addressed held buckets ipfs late bucket path).at s))
          coherent in
      let raced = run_race-IsCoherent order bucket path _ still in
      bind-leaves Coherent _ _ s (λ e _. still)
        (λ blocked _.
          bind-leaves Coherent (attempt (run_race c order bucket path)) _ _ (λ e _. raced)
            (λ r _. subst Coherent (sym (left_with blocked r _)) raced))

  given_back :
      (blocked : Bool) (r : Result (List Byte)) (s : S) (content : List Byte)
      → ((if blocked then raise never_returns else lift r) s).0 ≡ ok content
      → r ≡ ok content
  unfolding lift raise
  given_back true r s content h = absurd (cc h)
  given_back false r s content h = h

  -- What the race returns is the file that is stored.
  pub race_pull_file-right :
      (order : Puller × List Puller) (late : List Puller) (bucket path : String) (s : S)
      (content : List Byte)
      → Coherent s
      → (race_pull_file c order late bucket path s).0 ≡ ok content
      → stored s bucket (names path) ≡ some content
  unfolding race_pull_file attempt
  race_pull_file-right order late bucket path s content coherent h =
      let unmoved = (reading_any c stored addressed held buckets ipfs late bucket path).at s in
      let (blocked, _, h1) = bind-step (any_pull c late bucket path) _ s content h in
      let (r, ran, h2) = bind-step (attempt (run_race c order bucket path)) _ _ content h1 in
      let done = given_back blocked r _ content h2 in
      run_race-right order bucket path s content coherent
        (ap (λ t. (run_race c order bucket path t).0) (sym unmoved) ∙ ok-injective ran ∙ done)
