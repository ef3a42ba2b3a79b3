-- ===== src/Offline/Table.antt =====
-- What the store relies on SQLite for: a table of rows, in which the statements of the store find, add
-- and remove rows as SQL says.
use aiot_edge_gateway.Prelude.{
  ℕ, ◌≡◌, ◌<◌, ◌≤◌, ◌⊎◌, Bool, false, not, ◌&&◌, ◌||◌, List, [], ◌∷◌, ◌==◌,
}
use aiot_edge_gateway.Prelude.Text.{Text}

pub record Row : Type 0 where
  pub id : ℕ
  pub topic : Text
  pub payload : Text
  pub priority : ℕ

abbrev pub has : ℕ → List Row → Bool
has id [] = false
has id (r ∷ rows) = (id == r.id) || has id rows

-- The first row is to be sent before the others.
abbrev pub IsBefore : Row → List Row → Type 0
IsBefore r [] = Unit
IsBefore r (s ∷ rows) =
    ((s.priority < r.priority) ⊎ ((s.priority ≡ r.priority) × (r.id ≤ s.id))) × IsBefore r rows

abbrev pub IsOrdered : List Row → Type 0
IsOrdered [] = Unit
IsOrdered (r ∷ rows) = IsBefore r rows × IsOrdered rows

-- The statements: `select_rows` is `SELECT ... ORDER BY priority DESC, id ASC`, `delete_row` is
-- `DELETE ... WHERE id = ?`, and `insert_row` is `INSERT`.
pub record Sqlite {ℓ} (Table : Type ℓ) : Type ℓ where
  pub select_rows : Table → List Row
  pub delete_row : ℕ → Table → Table
  pub insert_row : Text → Text → ℕ → Table → Table
  pub select-IsOrdered : (t : Table) → IsOrdered (select_rows t)
  pub has-delete :
      (t : Table) (id x : ℕ)
      → has x (select_rows (delete_row id t)) ≡ (not (x == id) && has x (select_rows t))
