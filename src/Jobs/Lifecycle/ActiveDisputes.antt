-- ===== src/Jobs/Lifecycle/ActiveDisputes.antt =====
-- The table of disputes: what a new row and an update do to the active ones of each job.
use mathlib.Core.Option
use mathlib.Core.Option.{some-injective}
use home_hero_backend.Prelude.{
  ==_iff, Bool-cases, ap, arith, false, inl, inr, none, some, subst, sym, true, ℕ, ◌==◌, ◌∙◌, ◌≡◌,
  ◌⊎◌,
}
use home_hero_backend.Jobs.Disputes.{is_active_of}
use home_hero_backend.Jobs.Model.{Dispute, is_resolved}
use home_hero_backend.Jobs.World.{Db}

abbrev pub IsActive : Dispute → Type 0
IsActive d = is_resolved d.status ≡ false

-- Two rows of active disputes of one job are one row.
abbrev pub OneActive : (db : Db) → db.disputes.Rows → Type 0
OneActive db s =
    (i k : ℕ) (d e : Dispute)
    → db.disputes.find_unique i s ≡ some d
    → db.disputes.find_unique k s ≡ some e
    → IsActive d
    → IsActive e
    → d.job_id ≡ e.job_id
    → i ≡ k

module _ (db : Db) (s : db.disputes.Rows) where
  -- A row of the table after `create`.
  created_row :
      (new : Dispute) (i : ℕ) {d : Dispute}
      → new.id ≡ db.disputes.next_id s
      → db.disputes.find_unique i (db.disputes.create new s) ≡ some d
      → ((db.disputes.next_id s ≡ i) × (new ≡ d)) ⊎ (db.disputes.find_unique i s ≡ some d)
  created_row new i {d} key row = elim (Bool-cases (db.disputes.next_id s == i)) [
    | inl e ↦ inl (
      (==_iff _ i).0 e,
      some-injective new d (sym (db.disputes.find_create new i s key ∙ rw e) ∙ row),
    )
    | inr e ↦ inr (sym (db.disputes.find_create new i s key ∙ rw e) ∙ row)
  ]

  pub create-OneActive :
      (new : Dispute)
      → new.id ≡ db.disputes.next_id s
      → db.disputes.find_first (is_active_of new.job_id) s ≡ none
      → OneActive db s
      → OneActive db (db.disputes.create new s)
  create-OneActive new key none_active h i k d e hd he ad ae same =
      go (created_row new i key hd) (created_row new k key he)
    where
      other :
          (n : ℕ) {x : Dispute}
          → db.disputes.find_unique n s ≡ some x
          → IsActive x
          → new.job_id ≡ x.job_id
          → ⊥
      other n row active same =
          let off = db.disputes.find_first_complete _ s n none_active row in ground arith

      go :
          ((db.disputes.next_id s ≡ i) × (new ≡ d)) ⊎ (db.disputes.find_unique i s ≡ some d)
          → ((db.disputes.next_id s ≡ k) × (new ≡ e)) ⊎ (db.disputes.find_unique k s ≡ some e)
          → i ≡ k
      go (inl (a, _)) (inl (b, _)) = sym a ∙ b
      go (inl (_, a)) (inr b) = absurd (other k b ae (ap (λ (x : Dispute). x.job_id) a ∙ same))
      go (inr a) (inl (_, b)) = absurd (other i a ad (ap (λ (x : Dispute). x.job_id) b ∙ sym same))
      go (inr a) (inr b) = h i k d e a b ad ae same

  -- A row that is still active after the update was not updated.
  unresolved_row :
      (i k : ℕ) (f : Dispute → Dispute) {d : Dispute}
      → ((r : Dispute) → (f r).id ≡ r.id)
      → ((r : Dispute) → is_resolved (f r).status ≡ true)
      → db.disputes.find_unique k (db.disputes.update i f s) ≡ some d
      → IsActive d
      → db.disputes.find_unique k s ≡ some d
  unresolved_row i k f {d} keeps resolves row active = elim (Bool-cases (i == k)) [
    | inl e ↦
        let mapped : Option.map f (db.disputes.find_unique k s) ≡ some d =
          rw e at (sym (db.disputes.find_update i k f s keeps) ∙ row) in
        let (a, _, same) = (Option.map-eq-some_iff f _).0 mapped in
        let done = subst (λ (x : Dispute). is_resolved x.status ≡ true) same (resolves a) in
        absurd (cc)
    | inr e ↦ rw e at (sym (db.disputes.find_update i k f s keeps) ∙ row)
  ]

  pub update-OneActive :
      (i : ℕ) (f : Dispute → Dispute)
      → ((r : Dispute) → (f r).id ≡ r.id)
      → ((r : Dispute) → is_resolved (f r).status ≡ true)
      → OneActive db s
      → OneActive db (db.disputes.update i f s)
  update-OneActive i f keeps resolves h j k d e hd he ad ae same =
      h j k d e (unresolved_row i j f keeps resolves hd ad)
        (unresolved_row i k f keeps resolves he ae) ad ae same
