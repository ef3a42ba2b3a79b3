-- ===== src/Rpc/Handler.antt =====
-- The class `RpcHandler`. A handler answers a payload and changes the state of the application, of
-- which this class knows nothing.
use aiot_edge_gateway.Prelude.{
  ℕ, ◌+◌, ◌-◌, Bool, false, ◌||◌, Option, none, some, List, [], ◌∷◌, ◌++◌, leb, if◌then◌else◌,
  length,
}
use aiot_edge_gateway.Prelude.Text.{Text, codes, eqb, is_empty, find, find_char, substr}

abbrev pub quote : ℕ
quote = b'"'

abbrev pub quoted : Text → Text
quoted key = quote ∷ (key ++ (quote ∷ []))

-- From `pos` on: the text between the next quote and the one after it.
unfoldable pub quoted_from : Text → ℕ → Option Text
quoted_from json pos = elim (find_char json quote pos) [
  | none ↦ none
  | some val_start ↦ elim (find_char json quote (val_start + 1)) [
    | none ↦ none
    | some end ↦ some (substr json (val_start + 1) (end - (val_start + 1)))
  ]
]

unfoldable pub extract_json_str : Text → Text → Text
extract_json_str json key = elim (find json (quoted key) 0) [
  | none ↦ []
  | some pos ↦ elim (quoted_from json (pos + length key + 2)) [ none ↦ [] | some value ↦ value ]
]

-- `kMaxSeenIds`
abbrev pub max_seen_ids : ℕ
max_seen_ids = 10000

abbrev pub contains : List Text → Text → Bool
contains [] x = false
contains (y ∷ ys) x = eqb y x || contains ys x

abbrev pub erase : List Text → Text → List Text
erase [] x = []
erase (y ∷ ys) x = if eqb y x then ys else y ∷ erase ys x

abbrev pub insert : List Text → Text → List Text
insert xs x = if contains xs x then xs else xs ++ (x ∷ [])

abbrev pub tail_of : List Text → List Text
tail_of [] = []
tail_of (x ∷ xs) = xs

abbrev pub MethodHandler {ℓ} : Type ℓ → Type ℓ
MethodHandler App = Text → App → Text × App

-- `seen_ids` is the set, listed in some order; `id_order` is the queue, oldest first.
pub record RpcHandler {ℓ} (App : Type ℓ) : Type ℓ where
  pub handlers : List (Text × MethodHandler App)
  pub seen_ids : List Text
  pub id_order : List Text

module _ {ℓ} {App : Type ℓ} where
  unfoldable pub register_method : RpcHandler App → Text → MethodHandler App → RpcHandler App
  register_method h name handler = record h { handlers = h.handlers ++ ((name, handler) ∷ []) }

  -- The first handler registered for the method.
  unfoldable pub call_handler : List (Text × MethodHandler App) → Text → Text → App → Text × App
  call_handler [] name payload app = (codes "NACK: unknown method " ++ name, app)
  call_handler ((name', handler) ∷ hs) name payload app =
      if eqb name' name then handler payload app else call_handler hs name payload app

  -- The oldest id makes room where the set is full.
  unfoldable pub evict_oldest : RpcHandler App → RpcHandler App
  evict_oldest h =
      if leb max_seen_ids (length h.seen_ids)
      then elim h.id_order [
        | [] ↦ h
        | oldest ∷ rest ↦ record h { seen_ids = erase h.seen_ids oldest; id_order = rest }
      ]
      else h

  unfoldable pub remember : RpcHandler App → Text → RpcHandler App
  remember h id =
      let h' = evict_oldest h in
      record h' { seen_ids = insert h'.seen_ids id; id_order = h'.id_order ++ (id ∷ []) }

  unfoldable pub dispatch_named : RpcHandler App → Text → Text → App → Text × RpcHandler App × App
  dispatch_named h name payload app =
      let id = extract_json_str payload (codes "id") in
      if is_empty id
      then (let (answer, app') = call_handler h.handlers name payload app in (answer, h, app'))
      else (if contains h.seen_ids id
          then (codes "NACK: duplicate request id", h, app)
          else (let (answer, app') = call_handler h.handlers name payload app in
              (answer, remember h id, app')))

  unfoldable pub dispatch : RpcHandler App → Text → App → Text × RpcHandler App × App
  dispatch h payload app = elim (find payload (codes "\"method\"") 0) [
    | none ↦ (codes "NACK: missing method", h, app)
    | some pos ↦ elim (quoted_from payload (pos + 8)) [
      | none ↦ (codes "NACK: malformed method field", h, app)
      | some name ↦ dispatch_named h name payload app
    ]
  ]
