-- ===== src/Hub/Awaited.antt =====
-- core/textile/hub/hub_auth.go: waiting for the message with the token ends where one comes.
use space_daemon.Exec.{pure, ◌>>=◌}
use space_daemon.Hub.{Services, TokenValue, InMessageToken, await_token}
use space_daemon.Outcome.{ok}
use space_daemon.Prelude.{ℕ, zero, suc, ◌<◌, true, false, str_eq, ◌≡◌, refl, arith}

-- The token `value` comes with the message behind the next `count` ones.
pub data Arrives {W : Type 0} (h : Services W) : InMessageToken → W → TokenValue → ℕ → Type 0 where
  here :
      (token : InMessageToken) (w : W)
      → str_eq token.type_ "token" ≡ true
      → Arrives h token w token.value zero
  later :
      (token next : InMessageToken) (w v : W) (value : TokenValue) (count : ℕ)
      → str_eq token.type_ "token" ≡ false
      → h.receive_token token w ≡ (ok next, v)
      → Arrives h next v value count
      → Arrives h token w value (suc count)

-- Fuel for one step more than the messages that come before is enough.
await_token-Arrives :
    {W : Type 0} (h : Services W) (fuel : ℕ) (token : InMessageToken) (w : W) (value : TokenValue)
    (count : ℕ)
    → Arrives h token w value count
    → count < fuel
    → (await_token h fuel token w).0 ≡ ok value
unfolding await_token pure ◌>>=◌
await_token-Arrives h zero token w value count a enough = absurd (omega (arith, enough))
await_token-Arrives h (suc fuel) token w value zero (here t u is_token) enough = rw is_token refl
await_token-Arrives h (suc fuel) token w value (suc count)
      (later t next u v x n other received rest) enough =
    rw (other, received)
      (await_token-Arrives h fuel next v value count rest (omega (arith, enough)))
