-- ===== src/Db/ListTable.antt =====
-- An instance of the database interface: the rows in cells numbered from 0. It shows that the laws
-- of the interface can be met, and it runs in the tests.
use mathlib.Core.Option
use home_hero_backend.Prelude.{
  ==_iff, All, Bool, Bool-cases, List, Option, Option-cases, [], arith, false, if◌then◌else◌, inl,
  inr, ltb, none, refl, some, subst, suc, sym, true, zero, ℕ, ◌<◌, ◌==◌, ◌∷◌, ◌≡◌, ◌≢◌, ◌⊎◌,
}
use home_hero_backend.Db.{Table}

pub record Cells (Row : Type 0) : Type 0 where
  pub count : ℕ
  pub cell : ℕ → Option Row

module _ {Row : Type 0} (key : Row → ℕ) where
  abbrev checked : ℕ → Option Row → Option Row
  checked i none = none
  checked i (some r) = if key r == i then some r else none

  abbrev read : ℕ → Cells Row → Option Row
  read i s = if ltb i s.count then checked i (s.cell i) else none

  -- The first row that passes the test, of an earlier find and one more row.
  unfoldable pub pick : (Row → Bool) → Option Row → Option Row → Option Row
  pick p (some r) o = some r
  pick p none none = none
  pick p none (some r) = if p r then some r else none

  unfoldable pub gather : (Row → Bool) → List Row → Option Row → List Row
  gather p rest none = rest
  gather p rest (some r) = if p r then r ∷ rest else rest

  unfoldable pub first_below : (Row → Bool) → ℕ → Cells Row → Option Row
  unfolding pick
  first_below p zero s = none
  first_below p (suc n) s = pick p (first_below p n s) (read n s)

  unfoldable pub many_below : (Row → Bool) → ℕ → Cells Row → List Row
  unfolding gather
  many_below p zero s = []
  many_below p (suc n) s = gather p (many_below p n s) (read n s)

  pub read-key : (i : ℕ) (s : Cells Row) {r : Row} → read i s ≡ some r → key r ≡ i
  read-key i s h = ground arith

  abbrev write : ℕ → (Row → Row) → Cells Row → Cells Row
  write i f s = record s { cell = λ j. if i == j then Option.map f (s.cell j) else s.cell j }

  pub read-write :
      (i j : ℕ) (f : Row → Row) (s : Cells Row)
      → ((r : Row) → key (f r) ≡ key r)
      → read j (write i f s) ≡ (if i == j then Option.map f (read j s) else read j s)
  read-write i j f s h = elim (Option-cases (s.cell j)) [
    | inl e ↦ rw e (ground arith)
    | inr (r, e) ↦ rw e (ground (arith, h r))
  ]

  abbrev write_many : (Row → Bool) → (Row → Row) → Cells Row → Cells Row
  write_many p f s = record s { cell = λ j. Option.map (λ r. if p r then f r else r) (s.cell j) }

  pub read-write_many :
      (p : Row → Bool) (f : Row → Row) (j : ℕ) (s : Cells Row)
      → ((r : Row) → key (f r) ≡ key r)
      → read j (write_many p f s) ≡ Option.map (λ r. if p r then f r else r) (read j s)
  read-write_many p f j s h = elim (Option-cases (s.cell j)) [
    | inl e ↦ rw e (ground arith)
    | inr (r, e) ↦ rw e (ground (arith, h r))
  ]

  abbrev push : Row → Cells Row → Cells Row
  push r s = record { count = suc s.count; cell = λ j. if s.count == j then some r else s.cell j }

  pub read-push :
      (r : Row) (j : ℕ) (s : Cells Row)
      → key r ≡ s.count
      → read j (push r s) ≡ (if s.count == j then some r else read j s)
  read-push r j s h = ground arith

  pick_sound :
      (p : Row → Bool) (earlier o : Option Row) {r : Row}
      → pick p earlier o ≡ some r
      → (earlier ≡ some r) ⊎ ((o ≡ some r) × (p r ≡ true))
  unfolding pick
  pick_sound p (some x) o h = inl h
  pick_sound p none none h = absurd (cc)
  pick_sound p none (some x) h = inr (ground arith, ground arith)

  pick-none :
      (p : Row → Bool) (earlier o : Option Row) {r : Row}
      → pick p earlier o ≡ none
      → (earlier ≡ none) × (o ≡ some r → p r ≡ false)
  unfolding pick
  pick-none p (some x) o h = absurd (cc)
  pick-none p none none h = (refl, λ e. cc)
  pick-none p none (some x) h = (refl, λ e. ground arith)

  gather-All :
      (p : Row → Bool) (rest : List Row) (o : Option Row)
      → All (λ r. p r ≡ true) rest
      → All (λ r. p r ≡ true) (gather p rest o)
  unfolding gather
  gather-All p rest none h = h
  gather-All p rest (some r) h = elim (Bool-cases (p r)) [ inl e ↦ rw e (e, h) | inr e ↦ rw e h ]

  pub first_below_sound :
      (p : Row → Bool) (n : ℕ) (s : Cells Row) {r : Row}
      → first_below p n s ≡ some r
      → (p r ≡ true) × (read (key r) s ≡ some r)
  unfolding first_below
  first_below_sound p zero s h = absurd (cc)
  first_below_sound p (suc n) s {r} h = elim (pick_sound p (first_below p n s) (read n s) h) [
    | inl e ↦ first_below_sound p n s e
    | inr (e, t) ↦ (t, rw (read-key n s e) e)
  ]

  pub first_below_complete :
      (p : Row → Bool) (n : ℕ) (s : Cells Row) (i : ℕ) {r : Row}
      → first_below p n s ≡ none
      → i < n
      → read i s ≡ some r
      → p r ≡ false
  unfolding first_below
  first_below_complete p zero s i h lt e = elim lt [ ]
  first_below_complete p (suc n) s i {r} h lt e =
      let (before, at) = pick-none p (first_below p n s) (read n s) {r = r} h in
      elim (Bool-cases (i == n)) [
        | inl same ↦ at (rw (← (==_iff i n).0 same) e)
        | inr other ↦ first_below_complete p n s i before (ground arith) e
      ]

  pub many_below_sound :
      (p : Row → Bool) (n : ℕ) (s : Cells Row) → All (λ r. p r ≡ true) (many_below p n s)
  unfolding many_below
  many_below_sound p zero s = tt
  many_below_sound p (suc n) s = gather-All p (many_below p n s) (read n s) (many_below_sound p n s)

  gather-rows :
      (p : Row → Bool) (Q : Row → Type 0) (rest : List Row) (o : Option Row)
      → All Q rest
      → ((r : Row) → o ≡ some r → Q r)
      → All Q (gather p rest o)
  unfolding gather
  gather-rows p Q rest none h at = h
  gather-rows p Q rest (some r) h at = elim (Bool-cases (p r)) [
    | inl e ↦ rw e (at r refl, h)
    | inr e ↦ rw e h
  ]

  pub many_below_rows :
      (p : Row → Bool) (n : ℕ) (s : Cells Row)
      → All (λ r. read (key r) s ≡ some r) (many_below p n s)
  unfolding many_below
  many_below_rows p zero s = tt
  many_below_rows p (suc n) s =
      gather-rows p _ (many_below p n s) (read n s) (many_below_rows p n s)
        λ r e. rw (read-key n s e) e

  gather_old :
      (p : Row → Bool) (rest : List Row) (o : Option Row) → rest ≢ [] → gather p rest o ≢ []
  unfolding gather
  gather_old p rest none h = h
  gather_old p rest (some r) h = elim (Bool-cases (p r)) [
    | inl e ↦ rw e (λ same. absurd (cc))
    | inr e ↦ rw e h
  ]

  gather_new :
      (p : Row → Bool) (rest : List Row) (r : Row) → p r ≡ true → gather p rest (some r) ≢ []
  unfolding gather
  gather_new p rest r e = rw e (λ same. absurd (cc))

  pub many_below_complete :
      (p : Row → Bool) (n : ℕ) (s : Cells Row) (i : ℕ) {r : Row}
      → i < n
      → read i s ≡ some r
      → p r ≡ true
      → many_below p n s ≢ []
  unfolding many_below
  many_below_complete p zero s i lt e t = elim lt [ ]
  many_below_complete p (suc n) s i {r} lt e t = elim (Bool-cases (i == n)) [
    | inl same ↦ rw (← (==_iff i n).0 same) (
        subst (λ o. gather p (many_below p i s) o ≢ []) (sym e)
          (gather_new p (many_below p i s) r t))
    | inr other ↦
        gather_old p (many_below p n s) (read n s) (many_below_complete p n s i (ground arith) e t)
  ]

  pub read-bounded : (i : ℕ) (s : Cells Row) {r : Row} → read i s ≡ some r → i < s.count
  read-bounded i s h = ground arith

  pub read-end : (s : Cells Row) → read s.count s ≡ none
  read-end s = ground arith

  abbrev pub cells_table : Table Row key
  cells_table = record {
    Rows = Cells Row;
    find_unique = read;
    find_first = λ p s. first_below p s.count s;
    find_many = λ p s. many_below p s.count s;
    update = write;
    update_many = write_many;
    next_id = λ s. s.count;
    create = push;
    find_key = read-key;
    find_update = read-write;
    find_update_many = read-write_many;
    find_create = read-push;
    next_id_fresh = read-end;
    find_first_sound = λ p s h. first_below_sound p s.count s h;
    find_first_complete = λ p s i h e. first_below_complete p s.count s i h (read-bounded i s e) e;
    find_many_sound = λ p s. many_below_sound p s.count s;
    find_many_rows = λ p s. many_below_rows p s.count s;
    find_many_complete = λ p s i e t. many_below_complete p s.count s i (read-bounded i s e) e t;
  }
