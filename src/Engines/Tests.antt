-- ===== src/Engines/Tests.antt =====
-- Three engines: one beats, one is late, and one is long gone.
use aiot_edge_gateway.Prelude.{ℕ, ◌≡◌, refl, true, not, ◌&&◌, [], ◌∷◌}
use aiot_edge_gateway.Engines.Manager.{Heartbeats, HeartbeatInfo, check_timeout, online_count}
use aiot_edge_gateway.Engines.Laws.{reports, has_entry, is_late, is_gone, check_timeout_lem}

abbrev beat : ℕ → HeartbeatInfo
beat t = record { last_beat = t; fps = []; npu_temp = [] }

abbrev engines : Heartbeats
engines = (1, beat 99000) ∷ (2, beat 60000) ∷ (3, beat 10000) ∷ []

check-engines : check_timeout 100000 engines ≡ (2 ∷ [], (1, beat 99000) ∷ (2, beat 60000) ∷ [])
unfolding check_timeout
check-engines = refl

check_timeout_lem_example :
    let (timed_out, kept) = check_timeout 100000 engines in
    (reports 2 timed_out
      ≡ has_entry (λ info. is_late 100000 info && not (is_gone 100000 info)) 2 engines)
    × (has_entry (λ info. true) 2 kept
        ≡ has_entry (λ info. not (is_gone 100000 info) && true) 2 engines)
    × (online_count 100000 kept ≡ online_count 100000 engines)
check_timeout_lem_example = check_timeout_lem 100000 2 (λ info. true) engines
