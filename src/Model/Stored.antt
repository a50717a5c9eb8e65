-- ===== src/Model/Stored.antt =====
-- What CreateBucket of core/textile/model/buckets.go stores, and what it returns.
use space_daemon.Exec.{Exec, pure, ◌>>=◌}
use space_daemon.Exec.Follows.{Follows, Follows-bind, Follows-lift}
use space_daemon.Exec.Returns.{bind-through}
use space_daemon.Model.{Collection, init_model}
use space_daemon.Model.Buckets.{
  bucket_encryption_key_length, create_bucket, find_bucket, new_instance, store_new,
}
use space_daemon.Model.Rows.{IsCollection, Same, init_model-Same, same}
use space_daemon.Outcome.{Err, ok, err, ok-injective}
use space_daemon.Prelude.{ℕ, String, List, [], ◌∷◌, ◌++◌, ◌≡◌, ap, sym, subst, ◌∙◌}
use space_daemon.Sync.Deps.{BucketSchema}

abbrev pub bucket_with_id : String → BucketSchema → BucketSchema
bucket_with_id id b = record b { id = id }

-- the row that was added, with a key of `rand_bytes`, and the schema that was returned for it
pub record IsStored {W : Type 0} (rand_bytes : ℕ → Exec W (List ℕ)) (slug db_id : String)
    (before after : List BucketSchema) (b : BucketSchema) : Type 0 where
  pub key : List ℕ
  pub world : W
  pub drawn : (rand_bytes bucket_encryption_key_length world).0 ≡ ok key
  pub added : after ≡ before ++ bucket_with_id b.id (new_instance slug db_id key) ∷ []
  pub keyless : b.encryption_key ≡ []

module _ {W : Type 0} (meta_thread : Exec W (Unit {0})) (rand_bytes : ℕ → Exec W (List ℕ))
    (buckets : Collection W BucketSchema) (rows : W → List BucketSchema)
    (laws : IsCollection buckets rows bucket_with_id) (context : Follows (Same rows) meta_thread)
    (random : (n : ℕ) → Follows (Same rows) (rand_bytes n)) where
  find_bucket-Same :
      (slug : String) → Follows (Same rows) (find_bucket meta_thread rand_bytes buckets slug)
  unfolding find_bucket
  find_bucket-Same slug =
      Follows-bind (same rows) _ _
        (init_model-Same buckets rows bucket_with_id laws meta_thread context)
        (λ u.
          Follows-bind (same rows) _ _ (record { at = laws.finding _ })
            (λ r. Follows-lift (same rows) _))

  store_new-IsStored :
      (slug db_id : String) (w : W) (b : BucketSchema)
      → (store_new meta_thread rand_bytes buckets slug db_id w).0 ≡ ok b
      → IsStored rand_bytes slug db_id
          (rows w)
          (rows (store_new meta_thread rand_bytes buckets slug db_id w).1)
          b
  unfolding store_new pure
  store_new-IsStored slug db_id w b h =
      let (u, made, h1, s1) = bind-through _ _ _ _ h in
      let (key, drawn, h2, s2) = bind-through _ _ _ _ h1 in
      let (id, created, h3, s3) = bind-through _ _ _ _ h2 in
      let same_b = ok-injective h3 in
      let row = new_instance slug db_id in
      let at_init = (init_model-Same buckets rows bucket_with_id laws meta_thread context).at w in
      let at_key = (random bucket_encryption_key_length).at (init_model meta_thread buckets w).1 in
      record {
        key = key;
        world = (init_model meta_thread buckets w).1;
        drawn = drawn;
        added =
            ap rows (s1 ∙ s2 ∙ s3)
            ∙ laws.created (row key) id _ created
            ∙ ap (λ xs. xs ++ bucket_with_id id (row key) ∷ []) (at_key ∙ at_init)
            ∙ ap (λ x. rows w ++ bucket_with_id x.id (row key) ∷ []) same_b;
        keyless = ap (λ x. x.encryption_key) (sym same_b);
      }

  -- Where a bucket is not found, the schema that CreateBucket returns has no encryption key, while the
  -- row that it has added to the others has a key that was drawn for it.
  pub create_bucket-IsStored :
      (slug db_id : String) (w : W) (e : Err) (b : BucketSchema)
      → (find_bucket meta_thread rand_bytes buckets slug w).0 ≡ err e
      → (create_bucket meta_thread rand_bytes buckets slug db_id w).0 ≡ ok b
      → IsStored rand_bytes slug db_id
          (rows w)
          (rows (create_bucket meta_thread rand_bytes buckets slug db_id w).1)
          b
  unfolding create_bucket ◌>>=◌
  create_bucket-IsStored slug db_id w e b missing h =
      let after = (find_bucket meta_thread rand_bytes buckets slug w).1 in
      let kept = (find_bucket-Same slug).at w in
      let stored = store_new-IsStored slug db_id after b (rw missing at h) in
      subst
        (λ old.
          IsStored rand_bytes slug db_id old
            (rows (create_bucket meta_thread rand_bytes buckets slug db_id w).1) b)
        kept (rw missing stored)
