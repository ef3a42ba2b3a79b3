-- ===== src/Offline/Store.antt =====
-- The class `OfflineStore` (gateway_core/OfflineStore.{h,cpp}). Whether a statement can be prepared,
-- whether its step is done, and whether a publish is acknowledged, is a parameter.
use aiot_edge_gateway.Prelude.{
  ℕ, ◌+◌, Bool, true, false, Option, none, some, List, [], ◌∷◌, ltb, if◌then◌else◌, ◌&&◌,
}
use aiot_edge_gateway.Prelude.Text.{Text}
use aiot_edge_gateway.Offline.Table.{Row, Sqlite}

module _ {ℓ} {Table : Type ℓ} (db : Sqlite Table) where
  -- No table is a database that did not open.
  unfoldable pub insert : Bool → Bool → Text → Text → ℕ → Option Table → Bool × Option Table
  insert can_prepare is_done topic payload priority none = (false, none)
  insert can_prepare is_done topic payload priority (some t) =
      if can_prepare
      then (if is_done
          then (true, some (db.insert_row topic payload priority t))
          else (false, some t))
      else (false, some t)

  -- What was sent, in the order of sending, and the count of the rows whose removal was prepared: the
  -- answer of the step is not looked at.
  unfoldable pub flush_rows :
      (Row → Bool) → (ℕ → Bool) → (ℕ → Bool) → List Row → Table → List Row × ℕ × Table
  flush_rows publish can_prepare is_done [] t = ([], 0, t)
  flush_rows publish can_prepare is_done (r ∷ rows) t =
      let left = if can_prepare r.id && is_done r.id then db.delete_row r.id t else t in
      let (sent, flushed, t') = flush_rows publish can_prepare is_done rows left in
      if publish r
      then (r ∷ sent, (if can_prepare r.id then flushed + 1 else flushed), t')
      else ([], 0, t)

  unfoldable pub flush :
      (Row → Bool) → (ℕ → Bool) → (ℕ → Bool) → Bool → Option Table → Bool × List Row × Option Table
  flush publish can_prepare is_done can_select none = (false, [], none)
  flush publish can_prepare is_done can_select (some t) =
      let (sent, flushed, t') = flush_rows publish can_prepare is_done (db.select_rows t) t in
      if can_select then (ltb 0 flushed, sent, some t') else (false, [], some t)
