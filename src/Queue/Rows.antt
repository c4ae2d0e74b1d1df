-- ===== src/Queue/Rows.antt =====
-- What is true of each row of a table of jobs, and what a single row keeps, under the updates of
-- src/jobs/worker.ts.
use mathlib.Core.Option.{some-injective}
use mathlib.Core.Option
use home_hero_backend.Prelude.{
  ==_iff, Bool, Bool-cases, Option, false, if◌then◌else◌, inl, inr, none, refl, some, subst, sym,
  true, ℕ, ◌==◌, ◌∙◌, ◌≡◌,
}
use home_hero_backend.Db.{Table}
use home_hero_backend.Queue.Model.{BackgroundJob}

module _ (table : Table BackgroundJob (λ j. j.id)) where
  abbrev pub EachRow : (BackgroundJob → Type 0) → table.Rows → Type 0
  EachRow Q s = (k : ℕ) (j : BackgroundJob) → table.find_unique k s ≡ some j → Q j

  abbrev pub RowIs : ℕ → BackgroundJob → table.Rows → Type 0
  RowIs k j s = table.find_unique k s ≡ some j

  updated_row :
      (Q : BackgroundJob → Type 0) (p : BackgroundJob → Bool) (f : BackgroundJob → BackgroundJob)
      (o : Option BackgroundJob) {j : BackgroundJob}
      → Option.map (λ r. if p r then f r else r) o ≡ some j
      → ((r : BackgroundJob) → o ≡ some r → Q r)
      → ((r : BackgroundJob) → Q r → Q (f r))
      → Q j
  updated_row Q p f none e old new = absurd (cc)
  updated_row Q p f (some r) e old new = elim (Bool-cases (p r)) [
    | inl hit ↦ subst Q (some-injective _ _ (sym (rw hit refl) ∙ e)) (new r (old r refl))
    | inr off ↦ subst Q (some-injective _ _ (sym (rw off refl) ∙ e)) (old r refl)
  ]

  pub EachRow-update_many :
      (Q : BackgroundJob → Type 0) (p : BackgroundJob → Bool) (f : BackgroundJob → BackgroundJob)
      (s : table.Rows)
      → ((j : BackgroundJob) → (f j).id ≡ j.id)
      → ((j : BackgroundJob) → Q j → Q (f j))
      → EachRow Q s
      → EachRow Q (table.update_many p f s)
  EachRow-update_many Q p f s keeps new h k j row =
      updated_row Q p f (table.find_unique k s) (sym (table.find_update_many p f k s keeps) ∙ row)
        (h k) new

  pub EachRow-create :
      (Q : BackgroundJob → Type 0) (r : BackgroundJob) (s : table.Rows)
      → r.id ≡ table.next_id s
      → Q r
      → EachRow Q s
      → EachRow Q (table.create r s)
  EachRow-create Q r s key q h k j row = elim (Bool-cases (table.next_id s == k)) [
    | inl at ↦ subst Q (some-injective _ _ (sym (table.find_create r k s key ∙ rw at refl) ∙ row)) q
    | inr other ↦ h k j (sym (table.find_create r k s key ∙ rw other refl) ∙ row)
  ]

  pub RowIs-update_many :
      (k : ℕ) (j : BackgroundJob) (p : BackgroundJob → Bool) (f : BackgroundJob → BackgroundJob)
      (s : table.Rows)
      → ((j : BackgroundJob) → (f j).id ≡ j.id)
      → p j ≡ false
      → RowIs k j s
      → RowIs k j (table.update_many p f s)
  RowIs-update_many k j p f s keeps off row =
      table.find_update_many p f k s keeps ∙ rw row (rw off refl)

  pub RowIs-create :
      (k : ℕ) (j r : BackgroundJob) (s : table.Rows)
      → r.id ≡ table.next_id s
      → RowIs k j s
      → RowIs k j (table.create r s)
  RowIs-create k j r s key row = elim (Bool-cases (table.next_id s == k)) [
    | inl at ↦
        let fresh : table.find_unique k s ≡ none =
          rw (← (==_iff _ _).0 at) (table.next_id_fresh s) in
        absurd (cc)
    | inr other ↦ table.find_create r k s key ∙ rw other row
  ]

  pub RowIs-update :
      (k : ℕ) (j : BackgroundJob) (i : ℕ) (f : BackgroundJob → BackgroundJob) (s : table.Rows)
      → ((j : BackgroundJob) → (f j).id ≡ j.id)
      → (i == k) ≡ false
      → RowIs k j s
      → RowIs k j (table.update i f s)
  RowIs-update k j i f s keeps off row = table.find_update i k f s keeps ∙ rw (off, row) refl

  pub EachRow-update :
      (Q : BackgroundJob → Type 0) (i : ℕ) (f : BackgroundJob → BackgroundJob) (s : table.Rows)
      → ((j : BackgroundJob) → (f j).id ≡ j.id)
      → ((j : BackgroundJob) → Q j → Q (f j))
      → EachRow Q s
      → EachRow Q (table.update i f s)
  EachRow-update Q i f s keeps new h k j row = elim (Bool-cases (i == k)) [
    | inl at ↦
        updated_row Q (λ r. true) f (table.find_unique k s)
          (rw at at (sym (table.find_update i k f s keeps) ∙ row)) (h k) new
    | inr other ↦ h k j (rw other at (sym (table.find_update i k f s keeps) ∙ row))
  ]
