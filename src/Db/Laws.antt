-- ===== src/Db/Laws.antt =====
-- Facts about tables that follow from the laws of the interface.
use home_hero_backend.Prelude.{==_iff, refl, some, ℕ, ◌∙◌, ◌≡◌}
use home_hero_backend.Db.{Table}

module _ {Row : Type 0} {key : Row → ℕ} (table : Table Row key) (s : table.Rows) where
  -- The row that was updated, under its key.
  pub find_update_self :
      (i : ℕ) (f : Row → Row) {r : Row}
      → ((r : Row) → key (f r) ≡ key r)
      → table.find_unique i s ≡ some r
      → table.find_unique i (table.update i f s) ≡ some (f r)
  find_update_self i f keeps row =
      table.find_update i i f s keeps ∙ rw ((==_iff i i).1 refl) (rw row)
