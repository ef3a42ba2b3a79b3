-- ===== src/Frames/Tests.antt =====
-- A pool of three frames.
use aiot_edge_gateway.Prelude.{ℕ, ◌≡◌, refl, true, some, List, [], ◌∷◌, ◌++◌, arith}
use aiot_edge_gateway.Frames.Pool.{
  held, new_pool, frame, Action, get_frame, drop, release, take_steps, take_step, get_frame_step,
  drop_frame, release_step,
}
use aiot_edge_gateway.Frames.Taken.{Gives, get_frame-exclusive}

abbrev takes : ℕ → List Action
takes thread = get_frame thread true ∷ get_frame thread true ∷ get_frame thread true ∷ []

abbrev gives_back : ℕ → List Action
gives_back i = drop i ∷ release true i ∷ release true i ∷ release true i ∷ []

abbrev churn : List Action
churn = takes 1 ++ (get_frame 1 true ∷ get_frame 1 true ∷ gives_back 0)

-- The release between the read and the exchange makes the exchange fail.
churn-retries : (take_steps churn (new_pool 3)).free_head ≡ some 0
unfolding take_steps take_step get_frame_step drop_frame release_step new_pool
churn-retries = refl

-- Two threads take frames: while the first is between its read and its exchange, the second takes the
-- slots 0 and 1 and gives 0 back.
abbrev shared : List Action
shared =
    (get_frame 1 true ∷ get_frame 1 true ∷ [])
    ++ (takes 2 ++ (takes 2 ++ (gives_back 0 ++ takes 1)))

-- The slot 1 is given then, although the second thread still has it.
shared-given_twice :
    let p = take_steps shared (new_pool 3) in
    (p.status 1 ≡ held) × ((get_frame_step 1 true p).0 ≡ frame 1)
unfolding take_steps take_step get_frame_step drop_frame release_step new_pool
shared-given_twice = (refl, refl)

get_frame-exclusive_example :
    let p = take_steps churn (new_pool 3) in let r = get_frame_step 1 true p in Gives 1 p r.0 r.1
get_frame-exclusive_example =
    get_frame-exclusive 1 3 churn true (omega arith) (refl, (refl, (refl, (refl, (refl, tt)))))
