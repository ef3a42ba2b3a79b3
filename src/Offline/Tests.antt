-- ===== src/Offline/Tests.antt =====
-- A table as a list of rows, sorted when it is read.
use aiot_edge_gateway.Prelude.{
  ℕ, ◌+◌, ◌≡◌, inl, inr, refl, sym, ap, ◌∙◌, Bool, true, false, not, ◌&&◌, ◌||◌, some, List, [],
  ◌∷◌, length, ltb, leb, ◌==◌, arith, Bool-cases, if◌then◌else◌,
}
use aiot_edge_gateway.Prelude.Text.{codes}
use aiot_edge_gateway.Offline.Table.{Row, Sqlite, has, IsBefore, IsOrdered}
use aiot_edge_gateway.Offline.Store.{flush, flush_rows}
use aiot_edge_gateway.Offline.Flush.{take_while, removed, flush-sends}

abbrev before : Row → Row → Bool
before r s = ltb s.priority r.priority || ((s.priority == r.priority) && leb r.id s.id)

abbrev put : Row → List Row → List Row
put r [] = r ∷ []
put r (s ∷ rows) = let rest = put r rows in if before r s then r ∷ s ∷ rows else s ∷ rest

abbrev sort : List Row → List Row
sort [] = []
sort (r ∷ rows) = put r (sort rows)

abbrev delete : ℕ → List Row → List Row
delete id [] = []
delete id (r ∷ rows) = let rest = delete id rows in if id == r.id then rest else r ∷ rest

IsBefore-trans :
    (r s : Row) (rows : List Row) → before r s ≡ true → IsBefore s rows → IsBefore r rows
IsBefore-trans r s [] h b = b
IsBefore-trans r s (t ∷ rows) h (b, bs) = (ground (arith, b), IsBefore-trans r s rows h bs)

put-IsBefore :
    (r s : Row) (rows : List Row) → before r s ≡ false → IsBefore s rows → IsBefore s (put r rows)
put-IsBefore r s [] h b = (ground arith, tt)
put-IsBefore r s (t ∷ rows) h (b, bs) = elim (Bool-cases (before r t)) [
  | inl e ↦ rw e (ground arith, (b, bs))
  | inr e ↦ rw e (b, put-IsBefore r s rows h bs)
]

put-IsOrdered : (r : Row) (rows : List Row) → IsOrdered rows → IsOrdered (put r rows)
put-IsOrdered r [] o = (tt, tt)
put-IsOrdered r (s ∷ rows) (b, o) = elim (Bool-cases (before r s)) [
  | inl e ↦ rw e ((ground arith, IsBefore-trans r s rows e b), (b, o))
  | inr e ↦ rw e (put-IsBefore r s rows e b, put-IsOrdered r rows o)
]

sort-IsOrdered : (rows : List Row) → IsOrdered (sort rows)
sort-IsOrdered [] = tt
sort-IsOrdered (r ∷ rows) = put-IsOrdered r (sort rows) (sort-IsOrdered rows)

has-put : (x : ℕ) (r : Row) (rows : List Row) → has x (put r rows) ≡ ((x == r.id) || has x rows)
has-put x r [] = refl
has-put x r (s ∷ rows) = grind (arith, has-put x r rows)

has-sort : (x : ℕ) (rows : List Row) → has x (sort rows) ≡ has x rows
has-sort x [] = refl
has-sort x (r ∷ rows) = grind (arith, has-put x r (sort rows), has-sort x rows)

has-deleted : (id x : ℕ) (rows : List Row) → has x (delete id rows) ≡ (not (x == id) && has x rows)
has-deleted id x [] = grind arith
has-deleted id x (r ∷ rows) = grind (arith, has-deleted id x rows)

abbrev table : Sqlite (List Row)
table = record {
  select_rows = sort;
  delete_row = delete;
  insert_row = λ topic payload priority t.
      record { id = length t + 1; topic = topic; payload = payload; priority = priority } ∷ t;
  select-IsOrdered = sort-IsOrdered;
  has-delete = λ t id x.
      has-sort x (delete id t)
      ∙ has-deleted id x t
      ∙ ap (λ b. not (x == id) && b) (sym (has-sort x t));
}

abbrev reading : Row
reading = record { id = 1; topic = codes "DDATA"; payload = codes "temp=20"; priority = 0 }

abbrev alarm : Row
alarm = record { id = 2; topic = codes "DALARM"; payload = codes "fire"; priority = 1 }

-- The alarm goes first; the broker takes nothing but alarms.
flush-alarm :
    flush table (λ r. r.priority == 1) (λ id. true) (λ id. true) true (some (alarm ∷ reading ∷ []))
    ≡ (true, alarm ∷ [], some (reading ∷ []))
unfolding flush flush_rows
flush-alarm = refl

flush-sends_example :
    (let (answer, sent, after) =
        flush table
          (λ r. r.priority == 1)
          (λ id. true)
          (λ id. true)
          true
          (some (alarm ∷ reading ∷ [])) in
      let t' =
        (flush_rows table
          (λ r. r.priority == 1)
          (λ id. true)
          (λ id. true)
          (sort (alarm ∷ reading ∷ []))
          (alarm ∷ reading ∷ [])).2 in
      (sent ≡ take_while (λ r. r.priority == 1) (sort (alarm ∷ reading ∷ [])))
      × (after ≡ some t')
      × IsOrdered sent
      × (has 1 (sort t') ≡ (
          not (removed (λ id. true) (λ id. true) sent 1) && has 1 (sort (alarm ∷ reading ∷ [])))))
flush-sends_example =
    flush-sends table (λ r. r.priority == 1) (λ id. true) (λ id. true) (alarm ∷ reading ∷ []) 1
