-- ===== src/Db.antt =====
-- The database client (Prisma, a third-party package) as an interface: a table of rows with
-- numeric keys, and the laws that its documentation gives for the calls that the backend makes.
pub mod ListTable
pub mod Laws
use mathlib.Core.Option
use home_hero_backend.Prelude.{
  All, Bool, List, Option, [], false, if◌then◌else◌, none, some, true, ℕ, ◌==◌, ◌≡◌, ◌≢◌,
}

-- `where` clauses are tests on rows, `data` clauses are updates of a row.
pub record Table (Row : Type 0) (key : Row → ℕ) : Type 1 where
  pub Rows : Type 0
  -- `findUnique({ where: { id } })`.
  pub find_unique : ℕ → Rows → Option Row
  -- `findFirst({ where })` and `findMany({ where })`.
  pub find_first : (Row → Bool) → Rows → Option Row
  pub find_many : (Row → Bool) → Rows → List Row
  -- The effect of `update({ where: { id }, data })` where the row is there.
  pub update : ℕ → (Row → Row) → Rows → Rows
  -- `updateMany({ where, data })`.
  pub update_many : (Row → Bool) → (Row → Row) → Rows → Rows
  -- `create({ data })`, with the key that the table gives to the new row.
  pub next_id : Rows → ℕ
  pub create : Row → Rows → Rows
  pub find_key : (i : ℕ) (s : Rows) {r : Row} → find_unique i s ≡ some r → key r ≡ i
  pub find_update :
      (i j : ℕ) (f : Row → Row) (s : Rows)
      → ((r : Row) → key (f r) ≡ key r)
      → find_unique j (update i f s)
        ≡ (if i == j then Option.map f (find_unique j s) else find_unique j s)
  pub find_update_many :
      (p : Row → Bool) (f : Row → Row) (j : ℕ) (s : Rows)
      → ((r : Row) → key (f r) ≡ key r)
      → find_unique j (update_many p f s)
        ≡ Option.map (λ r. if p r then f r else r) (find_unique j s)
  pub find_create :
      (r : Row) (j : ℕ) (s : Rows)
      → key r ≡ next_id s
      → find_unique j (create r s) ≡ (if next_id s == j then some r else find_unique j s)
  pub next_id_fresh : (s : Rows) → find_unique (next_id s) s ≡ none
  pub find_first_sound :
      (p : Row → Bool) (s : Rows) {r : Row}
      → find_first p s ≡ some r
      → (p r ≡ true) × (find_unique (key r) s ≡ some r)
  pub find_first_complete :
      (p : Row → Bool) (s : Rows) (i : ℕ) {r : Row}
      → find_first p s ≡ none
      → find_unique i s ≡ some r
      → p r ≡ false
  pub find_many_sound : (p : Row → Bool) (s : Rows) → All (λ r. p r ≡ true) (find_many p s)
  pub find_many_rows :
      (p : Row → Bool) (s : Rows) → All (λ r. find_unique (key r) s ≡ some r) (find_many p s)
  pub find_many_complete :
      (p : Row → Bool) (s : Rows) (i : ℕ) {r : Row}
      → find_unique i s ≡ some r
      → p r ≡ true
      → find_many p s ≢ []
