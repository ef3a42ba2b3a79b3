-- ===== src/Offline/Flush.antt =====
-- What a flush sends and what it leaves (gateway_core/OfflineStore.cpp, lines 51-91).
use aiot_edge_gateway.Prelude.{
  ℕ, ◌≡◌, refl, sym, ap, subst, ◌∙◌, Bool, true, not, ◌&&◌, some, List, [], ◌∷◌, arith,
  if◌then◌else◌,
}
use aiot_edge_gateway.Offline.Table.{Row, Sqlite, has, IsBefore, IsOrdered}
use aiot_edge_gateway.Offline.Store.{flush_rows, flush}

-- The rows up to the first one whose publish fails.
abbrev pub take_while : (Row → Bool) → List Row → List Row
take_while p [] = []
take_while p (r ∷ rows) = let rest = take_while p rows in if p r then r ∷ rest else []

take_while-IsBefore :
    (p : Row → Bool) (r : Row) (rows : List Row) → IsBefore r rows → IsBefore r (take_while p rows)
take_while-IsBefore p r [] b = b
take_while-IsBefore p r (s ∷ rows) (b, bs) = ground (arith, b, take_while-IsBefore p r rows bs)

take_while-IsOrdered :
    (p : Row → Bool) (rows : List Row) → IsOrdered rows → IsOrdered (take_while p rows)
take_while-IsOrdered p [] o = o
take_while-IsOrdered p (r ∷ rows) (b, o) =
    ground (arith, take_while-IsBefore p r rows b, take_while-IsOrdered p rows o)

-- Whether a row was sent and could be removed.
abbrev pub removed : (ℕ → Bool) → (ℕ → Bool) → List Row → ℕ → Bool
removed can_prepare is_done sent x = can_prepare x && (is_done x && has x sent)

module _ {ℓ} {Table : Type ℓ} (db : Sqlite Table) (publish : Row → Bool)
    (can_prepare is_done : ℕ → Bool) where
  flush_rows-sent :
      (rows : List Row) (t : Table)
      → (flush_rows db publish can_prepare is_done rows t).0 ≡ take_while publish rows
  unfolding flush_rows
  flush_rows-sent [] t = refl
  flush_rows-sent (r ∷ rows) t =
      ground (arith, flush_rows-sent rows t, flush_rows-sent rows (db.delete_row r.id t))

  flush_rows-keeps :
      (rows : List Row) (t : Table) (x : ℕ)
      → has x (db.select_rows (flush_rows db publish can_prepare is_done rows t).2) ≡ (
          not (removed can_prepare is_done (take_while publish rows) x) && has x (db.select_rows t))
  unfolding flush_rows
  flush_rows-keeps [] t x = ground arith
  flush_rows-keeps (r ∷ rows) t x = grind (
    arith,
    flush_rows-keeps rows t x,
    flush_rows-keeps rows (db.delete_row r.id t) x,
    db.has-delete t r.id x,
  )

  -- A flush sends the rows in the order of their priority, and of their age among equals, up to the
  -- first one that the broker does not take. Exactly the rows that were sent and whose deletion was
  -- prepared and done are gone from the table then: no row is lost unsent.
  pub flush-sends :
      (t : Table) (x : ℕ)
      → (let (answer, sent, after) = flush db publish can_prepare is_done true (some t) in
          let t' = (flush_rows db publish can_prepare is_done (db.select_rows t) t).2 in
          (sent ≡ take_while publish (db.select_rows t))
          × (after ≡ some t')
          × IsOrdered sent
          × (has x (db.select_rows t')
              ≡ (not (removed can_prepare is_done sent x) && has x (db.select_rows t))))
  unfolding flush
  flush-sends t x =
      let e = flush_rows-sent (db.select_rows t) t in
      (
        e,
        refl,
        subst IsOrdered (sym e)
            (take_while-IsOrdered publish (db.select_rows t) (db.select-IsOrdered t)),
        flush_rows-keeps (db.select_rows t) t x
            ∙ ap (λ s. not (removed can_prepare is_done s x) && has x (db.select_rows t)) (sym e),
      )
