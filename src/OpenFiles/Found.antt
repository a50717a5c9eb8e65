-- ===== src/OpenFiles/Found.antt =====
-- core/sync: an opened file is found again.
use space_daemon.Exec.{raise, lift, ◌>>=◌}
use space_daemon.Exec.Returns.{bind-ok}
use space_daemon.OpenFiles.{
  AddWatchFile, Watching, add_file_watch, add_file_info_to_store, get_open_file_info,
  get_open_file_path, get_open_file_bucket_slug_and_path, get_open_file_key, reverse_key_of,
}
use space_daemon.Outcome.{ok}
use space_daemon.Prelude.{
  String, false, ◌||◌, some, none, ◌≡◌, ◌≢◌, ◌∙◌, refl, arith, str_eq, eq_iff, if◌then◌else◌,
  Bool-cases, inl, inr,
}

-- The store reads what was set last, the watcher does not change it, and the JSON coding is read back.
pub record IsKeptFiles {W B : Type 0} (D : Watching W B) : Type 0 where
  pub get_set :
      (k v : String) (w : W) → (D.st_set k v w).0 ≡ ok tt → (D.st_get k (D.st_set k v w).1).0 ≡ ok v
  pub get_set_ne :
      (k j v : String) (w : W) → k ≢ j → (D.st_get j (D.st_set k v w).1).0 ≡ (D.st_get j w).0
  pub get_add_file :
      (k path : String) (w : W) → (D.st_get k (D.add_file path w).1).0 ≡ (D.st_get k w).0
  pub unmarshal-marshal :
      (fi : AddWatchFile) (text : String) → D.marshal fi ≡ ok text → D.unmarshal text ≡ ok fi

module _ {W B : Type 0} (D : Watching W B) where
  module _ (L : IsKeptFiles D) where
    set_again :
        (k j text : String) (u : W)
        → (D.st_get k u).0 ≡ ok text
        → (D.st_set j text u).0 ≡ ok tt
        → (D.st_get k (D.st_set j text u).1).0 ≡ ok text
    set_again k j text u h e = elim (Bool-cases (str_eq j k)) [
      | inl same ↦ let q = (eq_iff j k).0 same in rw (← q) (L.get_set j text u e)
      | inr other ↦ L.get_set_ne j k text u (λ q. cc ((eq_iff j k).1 q, other)) ∙ h
    ]

    -- both entries hold the coded file
    record IsStored (fi : AddWatchFile) (u : W) : Type 0 where
      pub text : String
      pub encoded : D.marshal fi ≡ ok text
      pub forward : (D.st_get (get_open_file_key fi.local_path) u).0 ≡ ok text
      pub reverse : (D.st_get (reverse_key_of fi) u).0 ≡ ok text

    add_file_info_to_store-IsStored :
        (fi : AddWatchFile) (w : W)
        → (add_file_info_to_store D fi w).0 ≡ ok tt
        → IsStored fi (add_file_info_to_store D fi w).1
    unfolding add_file_info_to_store lift
    add_file_info_to_store-IsStored fi w e =
        let (text, encoded, e1) = bind-ok (lift (D.marshal fi)) _ w tt e in
        let (a, first, e2) =
          bind-ok (D.st_set (get_open_file_key fi.local_path) text) _ w tt (rw e1 at e) in
        let second = rw e2 at (rw e1 at e) in
        rw (e1, e2)
          (record {
            text = text;
            encoded = encoded;
            forward =
                set_again (get_open_file_key fi.local_path) (reverse_key_of fi) text _
                  (L.get_set (get_open_file_key fi.local_path) text w first) second;
            reverse = L.get_set (reverse_key_of fi) text _ second;
          })

    info_of_stored :
        (fi : AddWatchFile) (u : W) (k : String) (h : IsStored fi u)
        → (D.st_get k u).0 ≡ ok h.text
        → (get_open_file_info D k u).0 ≡ ok fi
    unfolding get_open_file_info ◌>>=◌ lift
    info_of_stored fi u k h r = rw r (L.unmarshal-marshal fi h.text h.encoded)

    watched-IsStored :
        (fi : AddWatchFile) (w : W)
        → (add_file_watch D fi w).0 ≡ ok tt
        → (str_eq fi.local_path "" ≡ false) × IsStored fi (add_file_watch D fi w).1
    unfolding add_file_watch raise
    watched-IsStored fi w e =
        elim (Bool-cases
          (str_eq fi.local_path "" || (str_eq fi.bucket_key "" || str_eq fi.bucket_path ""))) [
            | inl missing ↦ absurd (cc (rw missing at e))
            | inr given ↦
                let e' = rw given at e in
                let (a, done, e1) = bind-ok (add_file_info_to_store D fi) _ w tt e' in
                let h = add_file_info_to_store-IsStored fi w done in
                (
                  ground (arith, given),
                  rw (given, e1)
                      (record {
                        text = h.text;
                        encoded = h.encoded;
                        forward = L.get_add_file _ fi.local_path _ ∙ h.forward;
                        reverse = L.get_add_file _ fi.local_path _ ∙ h.reverse;
                      }),
                )
          ]

    -- A file whose watch was added is found by its place in the bucket, with its local path, and by its
    -- local path, with all that was given, where it has a bucket's slug: with a store and a coding that
    -- keep what they are given.
    pub get_open_file_path-add_file_watch :
        (fi : AddWatchFile) (w : W)
        → (add_file_watch D fi w).0 ≡ ok tt
        → let u = (add_file_watch D fi w).1 in
          (get_open_file_path D fi.bucket_slug fi.bucket_path fi.db_id fi.cid u
            ≡ some fi.local_path)
          × (get_open_file_bucket_slug_and_path D fi.local_path u
              ≡ (if str_eq fi.bucket_slug "" then none else some fi))
    unfolding get_open_file_path get_open_file_bucket_slug_and_path
    get_open_file_path-add_file_watch fi w e =
        let (named, h) = watched-IsStored fi w e in
        let u = (add_file_watch D fi w).1 in
        (
          rw (info_of_stored fi u (reverse_key_of fi) h h.reverse, named) refl,
          rw (info_of_stored fi u (get_open_file_key fi.local_path) h h.forward) refl,
        )
