-- ===== src/Sharing/Members.antt =====
-- The members of a shared file, in core/textile/sharing.go. They stand in the order in which Go ranges
-- over the map of the roles, which is any.
use space_daemon.Outcome.{Result, ok, ◌>>=◌}
use space_daemon.Prelude.{String, List, [], ◌∷◌}
use space_daemon.Prelude.Hex.{encode}
use space_daemon.Prelude.Map.{Map}
use space_daemon.Sharing.{Role, Textile}

-- domain.Member
pub record Member : Type 0 where
  pub address : String
  pub public_key : String

module _ {W Ctx Pk : Type 0} (T : Textile W Ctx Pk) where
  unfoldable pub member_of : String → Result Member
  unfolding encode
  member_of text = do
    pk ← T.unmarshal_key text
    bytes ← T.raw pk
    ok (record { address = T.derive_address pk; public_key = encode bytes })

  unfoldable pub members_of : Map Role → Result (List Member)
  unfolding member_of
  members_of [] = ok []
  members_of ((text, role) ∷ roles) = do
    member ← member_of text
    members ← members_of roles
    ok (member ∷ members)
