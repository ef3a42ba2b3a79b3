-- ===== src/Connect/Backoff.antt =====
-- `UdsClient::connect_with_backoff`: what each try meets is an input, and the pauses, in
-- milliseconds, are part of the result.
use aiot_edge_gateway.Prelude.{
  ℕ, zero, suc, ◌+◌, ◌*◌, Option, none, some, List, [], ◌∷◌, ltb, if◌then◌else◌,
}

-- One try of the client: there is no socket, nobody listens, or the descriptor is connected.
pub data Try : Type 0 where
  no_socket : Try
  refused : Try
  connected : ℕ → Try

-- `if (backoff_ms < 2000) backoff_ms *= 2`
abbrev pub next_backoff : ℕ → ℕ
next_backoff backoff_ms = if ltb backoff_ms 2000 then backoff_ms * 2 else backoff_ms

-- `attempt i` is what the try `i` meets; `none` is the result -1.
unfoldable pub connect_loop : (ℕ → Try) → ℕ → ℕ → ℕ → Option ℕ × List ℕ
connect_loop attempt retry zero backoff_ms = (none, [])
connect_loop attempt retry (suc left) backoff_ms =
    let (fd, pauses) = connect_loop attempt (retry + 1) left (next_backoff backoff_ms) in
    elim (attempt retry) [
      | no_socket ↦ (none, [])
      | refused ↦ (fd, backoff_ms ∷ pauses)
      | connected d ↦ (some d, [])
    ]

unfoldable pub connect_with_backoff : (ℕ → Try) → ℕ → Option ℕ × List ℕ
connect_with_backoff attempt max_retries = connect_loop attempt 0 max_retries 100
