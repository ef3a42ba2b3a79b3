-- ===== src/Connect/Tests.antt =====
-- The gateway is there at the third try.
use aiot_edge_gateway.Prelude.{ℕ, ◌≡◌, refl, some, [], ◌∷◌, ltb, if◌then◌else◌}
use aiot_edge_gateway.Connect.Backoff.{Try, connect_loop, connect_with_backoff}

abbrev attempt : ℕ → Try
attempt i = if ltb i 2 then Try.refused else Try.connected 7

connect-third : connect_with_backoff attempt 10 ≡ (some 7, 100 ∷ 200 ∷ [])
unfolding connect_with_backoff connect_loop
connect-third = refl
