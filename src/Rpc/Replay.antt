-- ===== src/Rpc/Replay.antt =====
-- That `dispatch` answers a request id once (gateway_core/RpcHandler.cpp, lines 30-44), in histories
-- of requests from a fresh handler or any other with a consistent record of ids.
use aiot_edge_gateway.Prelude.{
  ℕ, ◌+◌, ◌<◌, ◌≤◌, ◌≡◌, refl, ap, ◌∙◌, true, false, none, some, List, [], ◌∷◌, ◌++◌, arith, length,
  append_assoc, length-append, leb, leb→le, if◌then◌else◌, if◌then◌else◌, Bool-cases, Option-cases,
  inl, inr,
}
use aiot_edge_gateway.Prelude.Text.{Text, codes, eqb_refl, is_empty, find}
use aiot_edge_gateway.Rpc.Handler.{
  RpcHandler, dispatch, dispatch_named, contains, insert, remember, evict_oldest, MethodHandler,
  tail_of, max_seen_ids, quoted_from, extract_json_str,
}

pub contains-append : (xs ys : List Text) (i : Text) → contains (xs ++ (i ∷ ys)) i ≡ true
contains-append [] ys i = ground (arith, eqb_refl i)
contains-append (x ∷ xs) ys i = ground (arith, contains-append xs ys i)

-- The payload names a method, so that its id is looked at.
abbrev pub NamesMethod : Text → Type 0
NamesMethod payload =
    (pos : ℕ) × (name : Text) × (find payload (codes "\"method\"") 0 ≡ some pos)
    × (quoted_from payload (pos + 8) ≡ some name)

abbrev pub request_id : Text → Text
request_id payload = extract_json_str payload (codes "id")

-- The ids after one more is accepted, and after a payload.
unfoldable ids_after : List Text → Text → List Text
ids_after ids i = (if leb max_seen_ids (length ids) then tail_of ids else ids) ++ (i ∷ [])

unfoldable ids_named : List Text → Text → List Text
ids_named ids i = if is_empty i then ids else (if contains ids i then ids else ids_after ids i)

unfoldable ids_next : List Text → Text → List Text
ids_next ids payload = elim (find payload (codes "\"method\"") 0) [
  | none ↦ ids
  | some pos ↦ elim (quoted_from payload (pos + 8)) [
    | none ↦ ids
    | some name ↦ ids_named ids (request_id payload)
  ]
]

insert-new : (ids : List Text) (i : Text) → contains ids i ≡ false → insert ids i ≡ ids ++ (i ∷ [])
insert-new ids i h = ground arith

contains-tail :
    (ids : List Text) (i : Text) → contains ids i ≡ false → contains (tail_of ids) i ≡ false
contains-tail [] i h = h
contains-tail (x ∷ ids) i h = ground arith

evicted-contains :
    (ids : List Text) (i : Text)
    → contains ids i ≡ false
    → contains (if leb max_seen_ids (length ids) then tail_of ids else ids) i ≡ false
evicted-contains ids i e = ground (arith, contains-tail ids i e)

-- The ids after a history.
unfoldable ids_all : List Text → List Text → List Text
ids_all ids [] = ids
ids_all ids (payload ∷ payloads) = ids_all (ids_next ids payload) payloads

-- The id `i` is held, with at most `k` behind it.
abbrev Recent : List Text → Text → ℕ → Type 0
Recent ids i k =
    (xs : List Text) × (ys : List Text) × (ids ≡ xs ++ (i ∷ ys))
    × (length ys ≤ k)
    × (length ids ≤ max_seen_ids)

-- Behind the ids that are kept, one more.
Recent-append :
    (xs ys : List Text) (i j : Text) (k : ℕ)
    → length ys ≤ k
    → length (xs ++ (i ∷ ys)) < max_seen_ids
    → Recent ((xs ++ (i ∷ ys)) ++ (j ∷ [])) i (k + 1)
Recent-append xs ys i j k f g = (
  xs,
  ys ++ (j ∷ []),
  append_assoc xs (i ∷ ys) (j ∷ []),
  omega (arith, length-append ys (j ∷ [])),
  omega (arith, length-append (xs ++ (i ∷ ys)) (j ∷ [])),
)

evicted-Recent :
    (xs ys : List Text) (i j : Text) (k : ℕ)
    → length ys ≤ k
    → k + 1 < max_seen_ids
    → length (xs ++ (i ∷ ys)) ≡ max_seen_ids
    → Recent (tail_of (xs ++ (i ∷ ys)) ++ (j ∷ [])) i (k + 1)
evicted-Recent [] ys i j k f g h = absurd (omega arith)
evicted-Recent (x ∷ xs) ys i j k f g h = Recent-append xs ys i j k f (omega arith)

ids_after-Recent :
    (ids xs ys : List Text) (i j : Text) (k : ℕ)
    → ids ≡ xs ++ (i ∷ ys)
    → length ys ≤ k
    → length ids ≤ max_seen_ids
    → k + 1 < max_seen_ids
    → Recent (ids_after ids j) i (k + 1)
unfolding ids_after
ids_after-Recent ids xs ys i j k e f g h =
    elim (Bool-cases (leb max_seen_ids (length (xs ++ (i ∷ ys))))) [
      | inl full ↦
          rw (e, full)
            (evicted-Recent xs ys i j k f h
              (omega (arith, leb→le max_seen_ids (length (xs ++ (i ∷ ys))) full, ap length e)))
      | inr free ↦ rw (e, free) (Recent-append xs ys i j k f (ground arith))
    ]

ids_next-Recent :
    (ids : List Text) (i payload : Text) (k : ℕ)
    → Recent ids i k
    → k + 1 < max_seen_ids
    → Recent (ids_next ids payload) i (k + 1)
unfolding ids_next ids_named
ids_next-Recent ids i payload k (xs, ys, e, f, g) h =
    elim (find payload (codes "\"method\"") 0)
      as (λ o.
        Recent
          (elim o [
            | none ↦ ids
            | some pos ↦ elim (quoted_from payload (pos + 8)) [
              | none ↦ ids
              | some name ↦ ids_named ids (request_id payload)
            ]
          ])
          i (k + 1)) [
            | none ↦ kept
            | some pos ↦
                elim (quoted_from payload (pos + 8))
                  as (λ o.
                    Recent (elim o [ none ↦ ids | some name ↦ ids_named ids (request_id payload) ])
                      i (k + 1)) [ none ↦ kept | some name ↦ named ]
          ]
  where
    kept : Recent ids i (k + 1)
    kept = (xs, ys, e, omega arith, g)

    named : Recent (ids_named ids (request_id payload)) i (k + 1)
    named =
        elim (is_empty (request_id payload))
          as (λ b.
            Recent
              (if b
                then ids
                else (if contains ids (request_id payload)
                    then ids
                    else ids_after ids (request_id payload)))
              i (k + 1)) [
                | true ↦ kept
                | false ↦
                    elim (contains ids (request_id payload))
                      as (λ b.
                        Recent (if b then ids else ids_after ids (request_id payload)) i (k + 1)) [
                          | true ↦ kept
                          | false ↦ ids_after-Recent ids xs ys i (request_id payload) k e f g h
                        ]
              ]

ids_all-contains :
    (ids : List Text) (i : Text) (payloads : List Text) (k : ℕ)
    → Recent ids i k
    → k + length payloads < max_seen_ids
    → contains (ids_all ids payloads) i ≡ true
unfolding ids_all
ids_all-contains ids i [] k (xs, ys, e, f, g) h = rw e (contains-append xs ys i)
ids_all-contains ids i (payload ∷ payloads) k r h =
    ids_all-contains (ids_next ids payload) i payloads (k + 1)
      (ids_next-Recent ids i payload k r (omega arith)) (omega arith)

evicted-length :
    (ids : List Text) (i : Text)
    → length ids ≤ max_seen_ids
    → leb max_seen_ids (length ids) ≡ true
    → length (tail_of ids ++ (i ∷ [])) ≤ max_seen_ids
evicted-length [] i g full = ground arith
evicted-length (x ∷ ids) i g full = omega (arith, length-append ids (i ∷ []))

accepted-Recent :
    (ids : List Text) (payload : Text)
    → length ids ≤ max_seen_ids
    → NamesMethod payload
    → is_empty (request_id payload) ≡ false
    → contains ids (request_id payload) ≡ false
    → Recent (ids_next ids payload) (request_id payload) 0
unfolding ids_next ids_named ids_after
accepted-Recent ids payload g (pos, name, e, f) n c =
    rw (ids_next, e, f, ids_named, n, c, ids_after)
      (elim (Bool-cases (leb max_seen_ids (length ids))) [
        | inl full ↦
            rw full
              (tail_of ids, [], refl, omega arith, evicted-length ids (request_id payload) g full)
        | inr free ↦ rw free (
          ids,
          [],
          refl,
          omega arith,
          ground (arith, length-append ids (request_id payload ∷ [])),
        )
      ])

module _ {ℓ} {App : Type ℓ} where
  -- A handler whose set and queue both hold `ids`.
  abbrev pub with_ids : List (Text × MethodHandler App) → List Text → RpcHandler App
  with_ids hs ids = record { handlers = hs; seen_ids = ids; id_order = ids }

  -- One request after the other.
  unfoldable pub dispatch_all : RpcHandler App → List Text → App → RpcHandler App × App
  dispatch_all h [] app = (h, app)
  dispatch_all h (payload ∷ payloads) app =
      let (answer, h', app') = dispatch h payload app in dispatch_all h' payloads app'

  evict_oldest_lem :
      (hs : List (Text × MethodHandler App)) (ids : List Text)
      → evict_oldest (with_ids hs ids)
        ≡ with_ids hs (if leb max_seen_ids (length ids) then tail_of ids else ids)
  unfolding evict_oldest
  evict_oldest_lem hs [] = refl
  evict_oldest_lem hs (x ∷ ids) = ground (arith, eqb_refl x)

  remember_lem :
      (hs : List (Text × MethodHandler App)) (ids : List Text) (i : Text)
      → contains ids i ≡ false
      → remember (with_ids hs ids) i ≡ with_ids hs (ids_after ids i)
  unfolding remember ids_after
  remember_lem hs ids i e =
      rw
        (
          evict_oldest_lem hs ids,
          insert-new (if leb max_seen_ids (length ids) then tail_of ids else ids) i
              (evicted-contains ids i e),
        )
        refl

  named_ids :
      (hs : List (Text × MethodHandler App)) (ids : List Text) (name payload : Text) (app : App)
      → (dispatch_named (with_ids hs ids) name payload app).1
        ≡ with_ids hs (ids_named ids (request_id payload))
  unfolding dispatch_named ids_named
  named_ids hs ids name payload app = elim (Bool-cases (is_empty (request_id payload))) [
    | inl e ↦ rw e refl
    | inr e ↦ elim (Bool-cases (contains ids (request_id payload))) [
      | inl f ↦ rw (e, f) refl
      | inr f ↦ rw (e, f) (remember_lem hs ids (request_id payload) f)
    ]
  ]

  dispatch_ids :
      (hs : List (Text × MethodHandler App)) (ids : List Text) (payload : Text) (app : App)
      → (dispatch (with_ids hs ids) payload app).1 ≡ with_ids hs (ids_next ids payload)
  unfolding dispatch ids_next
  dispatch_ids hs ids payload app = elim (Option-cases (find payload (codes "\"method\"") 0)) [
    | inl e ↦ rw (dispatch, ids_next, e) refl
    | inr (pos, e) ↦ elim (Option-cases (quoted_from payload (pos + 8))) [
      | inl f ↦ rw (dispatch, ids_next, e, f) refl
      | inr (name, f) ↦ rw (dispatch, ids_next, e, f) (named_ids hs ids name payload app)
    ]
  ]

  dispatch_all_ids :
      (hs : List (Text × MethodHandler App)) (ids payloads : List Text) (app : App)
      → (dispatch_all (with_ids hs ids) payloads app).0 ≡ with_ids hs (ids_all ids payloads)
  unfolding dispatch_all ids_all
  dispatch_all_ids hs ids [] app = refl
  dispatch_all_ids hs ids (payload ∷ payloads) app =
      rw (dispatch_all, ids_all, dispatch_ids hs ids payload app)
        (dispatch_all_ids hs (ids_next ids payload) payloads _)

  -- A request whose id is held is answered so, by no handler.
  refused :
      (hs : List (Text × MethodHandler App)) (ids : List Text) (payload : Text) (app : App)
      → NamesMethod payload
      → is_empty (request_id payload) ≡ false
      → contains ids (request_id payload) ≡ true
      → dispatch (with_ids hs ids) payload app
        ≡ (codes "NACK: duplicate request id", with_ids hs ids, app)
  unfolding dispatch dispatch_named
  refused hs ids payload app (pos, name, e, f) g h = rw (dispatch, e, f, dispatch_named, g, h) refl

  -- A handler whose set holds the ids of its queue, at most the bound, accepts a request with a new
  -- id. Whatever fewer than `max_seen_ids` requests come next, a request with the same id that names
  -- a method is then refused as a duplicate: no handler runs, and nothing changes.
  pub dispatch-no_replay :
      (hs : List (Text × MethodHandler App)) (ids : List Text) (payload again : Text)
      (payloads : List Text) (app app' : App)
      → length ids ≤ max_seen_ids
      → NamesMethod payload
      → is_empty (request_id payload) ≡ false
      → contains ids (request_id payload) ≡ false
      → NamesMethod again
      → request_id again ≡ request_id payload
      → length payloads < max_seen_ids
      → (let h = (dispatch_all (with_ids hs ids) (payload ∷ payloads) app).0 in
          dispatch h again app' ≡ (codes "NACK: duplicate request id", h, app'))
  unfolding ids_all
  dispatch-no_replay hs ids payload again payloads app app' g m n c m' e l =
      rw (dispatch_all_ids hs ids (payload ∷ payloads) app) (
        refused hs (ids_all ids (payload ∷ payloads)) again app' m' (ap is_empty e ∙ n)
          (ap (contains _) e ∙ held))
    where
      held : contains (ids_all ids (payload ∷ payloads)) (request_id payload) ≡ true
      held =
          ids_all-contains (ids_next ids payload) (request_id payload) payloads 0
            (accepted-Recent ids payload g m n c) (omega arith)
