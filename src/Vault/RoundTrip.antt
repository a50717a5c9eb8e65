-- ===== src/Vault/RoundTrip.antt =====
-- core/vault/vault.go: the items that are stored under a passphrase are retrieved with it.
use space_daemon.Exec.{lift, pure, ◌>>=◌}
use space_daemon.Exec.Returns.{bind-through}
use space_daemon.Outcome.{ok}
use space_daemon.Prelude.{String, ◌<>◌, List, ◌≡◌, ap, ◌∙◌}
use space_daemon.Vault.{
  Vault, VaultItem, KeyBackupType, StoreVaultRequest, StoredVault, Response, compute_vk,
  backup_type_string, vk_version1, encrypt, decrypt, parse_api_response, opened_vault, submit,
  vsk_text, store, retrieve,
}
use space_daemon.Vault.Seal.{IsGcm, unseal-seal}

-- What the vault service promises to the owner of a token, and the encodings.
pub record IsVaultService {W Byte : Type 0} (v : Vault W Byte) (owner : String → String)
    : Type 0 where
  pub kept :
      (token : String) (request : StoreVaultRequest) (json body query : List Byte)
      (resp : Response Byte) (s : W)
      → v.web.marshal_store request ≡ ok json
      → (v.web.do_post (v.vault_api_url <> "/vaults") token json s).0 ≡ ok resp
      → parse_api_response v resp ≡ ok body
      → v.web.marshal_retrieve (record { vsk = request.vsk; type_ = request.type_ }) ≡ ok query
      → (answer : Response Byte) × (found : List Byte) × ((v.web.post
            (v.vault_api_url <> ("/vaults/" <> owner token))
            query
            (v.web.do_post (v.vault_api_url <> "/vaults") token json s).1).0
          ≡ ok answer)
        × (parse_api_response v answer ≡ ok found)
        × (v.web.unmarshal_response found ≡ ok request.vault)
  pub marshals :
      (vsk type_ : String)
      → (query : List Byte) × (v.web.marshal_retrieve (record { vsk = vsk; type_ = type_ })
          ≡ ok query)
  pub unmarshal-marshal :
      (items : List VaultItem) (json : List Byte)
      → v.web.marshal_items items ≡ ok json
      → v.web.unmarshal_items json ≡ ok items
  pub decode_encode :
      (content : List Byte) → v.web.decode_string (v.web.encode_to_string content) ≡ ok content

module _ {W Byte : Type 0} (v : Vault W Byte) (owner : String → String)
    (service : IsVaultService v owner) (gcm : IsGcm v.gcm) where
  -- What `submit` leaves with the service is what the owner's query finds.
  submit-kept :
      (token : String) (request : StoreVaultRequest) (query : List Byte) (s : W)
      (stored : StoredVault)
      → (submit v token request s).0 ≡ ok stored
      → v.web.marshal_retrieve (record { vsk = request.vsk; type_ = request.type_ }) ≡ ok query
      → (answer : Response Byte) × (found : List Byte) × ((v.web.post
            (v.vault_api_url <> ("/vaults/" <> owner token))
            query
            (submit v token request s).1).0
          ≡ ok answer)
        × (parse_api_response v answer ≡ ok found)
        × (v.web.unmarshal_response found ≡ ok request.vault)
  unfolding submit lift pure
  submit-kept token request query s stored h asked =
      let (json, marshalled, h1, t1) = bind-through _ _ s stored h in
      let (_, _, h2, t2) = bind-through _ _ _ stored h1 in
      let (resp, posted, h3, t3) =
        bind-through (v.web.do_post (v.vault_api_url <> "/vaults") token json) _ _ stored h2 in
      let (body, parsed, _, t4) = bind-through (lift (parse_api_response v resp)) _ _ stored h3 in
      let (answer, found, got, fine, held) =
        service.kept token request json body query resp s marshalled posted parsed asked in
      let state = t1 ∙ t2 ∙ t3 ∙ t4 in
      (
        answer,
        found,
        ap (λ t. (v.web.post (v.vault_api_url <> ("/vaults/" <> owner token)) query t).0) state
            ∙ got,
        fine,
        held,
      )

  opened_vault-sealed :
      (key vf enc_vf body : List Byte) (items : List VaultItem) (s : W)
      → v.web.marshal_items items ≡ ok vf
      → (encrypt v vf key s).0 ≡ ok enc_vf
      → v.web.unmarshal_response body ≡ ok (v.web.encode_to_string enc_vf)
      → opened_vault v key body ≡ ok items
  unfolding opened_vault encrypt decrypt
  opened_vault-sealed key vf enc_vf body items s marshalled encrypted found =
      rw (found, service.decode_encode enc_vf, unseal-seal v.gcm gcm key vf enc_vf s encrypted)
        (service.unmarshal-marshal items vf marshalled)

  -- Where the vault service gives the owner of a token what was stored for the same service key, and
  -- what is sealed can be opened: once `store` has returned, `retrieve` with the same passphrase and
  -- type of backup returns the items that were stored.
  pub retrieve-store :
      (passphrase token : String) (backup_type : KeyBackupType) (items : List VaultItem) (s : W)
      (stored : StoredVault)
      → (store v (owner token) passphrase backup_type token items s).0 ≡ ok stored
      → (retrieve v
          (owner token)
          passphrase
          backup_type
          (store v (owner token) passphrase backup_type token items s).1).0
        ≡ ok items
  unfolding store retrieve lift ◌>>=◌
  retrieve-store passphrase token backup_type items s stored h =
      let key = compute_vk v (owner token) passphrase vk_version1 in
      let (vf, marshalled, h1, t1) = bind-through (lift (v.web.marshal_items items)) _ s stored h in
      let (enc_vf, encrypted, h2, t2) = bind-through (encrypt v vf key) _ s stored h1 in
      let (query, asked) =
        service.marshals (vsk_text v (owner token) passphrase) (backup_type_string backup_type) in
      let (answer, found, got, parsed, held) = submit-kept token _ query _ stored h2 asked in
      rw (asked, t1, t2, got, parsed)
        (opened_vault-sealed key vf enc_vf found items s marshalled encrypted held)
