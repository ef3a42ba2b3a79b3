-- ===== src/Connect/Laws.antt =====
-- How long the client pauses, and when it is connected (gateway_access/UdsClient.cpp, lines 27-55).
use aiot_edge_gateway.Prelude.{
  ℕ, zero, suc, ◌+◌, ◌≤◌, ◌<◌, ◌≡◌, refl, Option, List, length, All, arith,
}
use aiot_edge_gateway.Connect.Backoff.{Try, next_backoff, connect_loop, connect_with_backoff}

-- A pause of the client.
abbrev IsPause : ℕ → Type 0
IsPause p = (100 ≤ p) × (p < 4000)

next-lem : (b : ℕ) → IsPause b → IsPause (next_backoff b)
next-lem b h = ground (arith, h.0, h.1)

loop-lem :
    (attempt : ℕ → Try) (retry left b : ℕ)
    → IsPause b
    → (let (fd, pauses) = connect_loop attempt retry left b in
        All IsPause pauses × (length pauses ≤ left))
unfolding connect_loop
loop-lem attempt retry zero b h = (tt, omega arith)
loop-lem attempt retry (suc left) b h =
    go (attempt retry) refl (loop-lem attempt (retry + 1) left (next_backoff b) (next-lem b h))
  where
    Bounded : Option ℕ × List ℕ → ℕ → Type 0
    Bounded r n = All IsPause r.1 × (length r.1 ≤ n)

    go :
        (t : Try)
        → attempt retry ≡ t
        → Bounded (connect_loop attempt (retry + 1) left (next_backoff b)) left
        → Bounded (connect_loop attempt retry (suc left) b) (suc left)
    go Try.no_socket e rest = rw (connect_loop, e) (tt, omega arith)
    go Try.refused e rest = rw (connect_loop, e) ((h, rest.0), omega (arith, rest.1))
    go (Try.connected d) e rest = rw (connect_loop, e) (tt, omega arith)

-- Whatever the tries meet, the client pauses at most as often as it may try, each time from 0.1 to less
-- than 4 seconds.
pub connect_with_backoff-bounds :
    (attempt : ℕ → Try) (max_retries : ℕ)
    → (let (fd, pauses) = connect_with_backoff attempt max_retries in
        All (λ p. (100 ≤ p) × (p < 4000)) pauses × (length pauses ≤ max_retries))
unfolding connect_with_backoff
connect_with_backoff-bounds attempt max_retries = loop-lem attempt 0 max_retries 100 (omega arith)
