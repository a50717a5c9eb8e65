-- ===== src/SecureClient/Names.antt =====
-- The names on an encrypted path are the encrypted names, and lie below each other as the names do.
use Prim.Native.String.append
use space_daemon.Crypto.{Ciphers, Keys, decrypt_item}
use space_daemon.Crypto.Paths.{ArePieces, IsPathName, append-empty, joined, split-ArePieces}
use space_daemon.Crypto.RoundTrip.{
  AreCiphers, AreSized, item_name, item_name-IsPathName, path_name, decrypt_item-item_name,
}
use space_daemon.Outcome.{ok, ok-injective}
use space_daemon.Prelude.{
  String, List, [], ◌∷◌, map, str_eq, eq_iff, ◌≡◌, refl, ap, sym, ◌∙◌, Bool-cases, inl, inr,
}
use space_daemon.Prelude.Text.{split, split-lacks, split-append}
use space_daemon.SecureClient.Buckets.{filled, names, below}

filled-joined :
    (name : String → String) (ps : List String)
    → IsPathName name
    → ArePieces ps
    → filled (split "/" (joined name ps)) ≡ map name (filled ps)
unfolding filled joined split
filled-joined name [] h a = refl
filled-joined name (p ∷ []) h (a, b) = elim (Bool-cases (str_eq p "")) [
  | inl e ↦ rw e refl
  | inr e ↦
      rw
        (
          e,
          append.nil "",
          append-empty (name p),
          split-lacks "/" (name p) (h.lacking p a),
          h.filled p e,
        )
        refl
]
filled-joined name (p ∷ (q ∷ qs)) h (a, b) =
    let rest = filled-joined name (q ∷ qs) h b in
    elim (Bool-cases (str_eq p "")) [
      | inl e ↦ rw e rest
      | inr e ↦
          let later = joined name (q ∷ qs) in
          rw
            (
              e,
              append.cons "/" "" later,
              append.nil later,
              split-append "/" (name p) later (h.lacking p a),
              h.filled p e,
            )
            (ap (λ l. name p ∷ l) rest)
    ]

below-map :
    (name : String → String) (ps qs : List String)
    → ((p q : String) → str_eq (name p) (name q) ≡ str_eq p q)
    → below (map name ps) (map name qs) ≡ below ps qs
unfolding below
below-map name [] qs h = refl
below-map name (p ∷ ps) [] h = refl
below-map name (p ∷ ps) (q ∷ qs) h = rw (h p q, below-map name ps qs h) refl

same_test :
    (name : String → String) (p q : String)
    → (name p ≡ name q → p ≡ q)
    → str_eq (name p) (name q) ≡ str_eq p q
same_test name p q h = elim (Bool-cases (str_eq p q)) [
  | inl e ↦ (eq_iff (name p) (name q)).1 (ap name ((eq_iff p q).0 e)) ∙ sym e
  | inr e ↦ elim (Bool-cases (str_eq (name p) (name q))) [
    | inl f ↦ let g = (eq_iff p q).1 (h ((eq_iff (name p) (name q)).0 f)) in absurd (cc (g, e))
    | inr f ↦ f ∙ sym e
  ]
]

module _ {Byte : Type 0} (lib : Ciphers Byte) (laws : AreCiphers lib) (keys : Keys Byte)
    (sized : AreSized keys) where
  pub names-path_name :
      (path : String)
      → names (path_name lib laws keys sized path)
        ≡ map (item_name lib laws keys sized) (names path)
  unfolding names path_name
  names-path_name path =
      filled-joined (item_name lib laws keys sized) (split "/" path)
        (item_name-IsPathName lib laws keys sized) (split-ArePieces path)

  pub below-item_name :
      (ps qs : List String)
      → lib.temp_file ≡ ok tt
      → below (map (item_name lib laws keys sized) ps) (map (item_name lib laws keys sized) qs)
        ≡ below ps qs
  below-item_name ps qs temp =
      let name = item_name lib laws keys sized in
      below-map name ps qs (λ p q. same_test name p q (λ e. ok-injective (
        sym (decrypt_item-item_name lib laws keys sized temp p)
        ∙ ap (decrypt_item lib keys) e
        ∙ decrypt_item-item_name lib laws keys sized temp q)))
