-- ===== src/Exchange/OnePending.antt =====
-- src/routes/contactExchange.ts: no two requests of a job wait at once.
use mathlib.Core.Option.{some-injective}
use mathlib.Core.Option
use home_hero_backend.Prelude.{
  ==_iff, Bool, Bool-cases, List, Option, [], arith, false, inl, inr, none, refl, some, subst, sym,
  true, ℕ, ◌==◌, ◌∙◌, ◌∷◌, ◌≡◌, ◌⊎◌,
}
use home_hero_backend.Exchange.Handlers.{is_pending_for}
use home_hero_backend.Exchange.Model.{
  ContactRequest, Decision, ExchangeDb, ExchangeInput, ExchangeState, approve, decided, new_request,
  reject,
}
use home_hero_backend.Exchange.Serving.{ExchangeCall, input_of, serve, serve-ExchangeStep}
use home_hero_backend.Exchange.Steps.{ExchangeStep, NonePending, asks, decides, stays}

module _ (db : ExchangeDb) where
  abbrev pub OnePending : db.requests.Rows → Type 0
  OnePending s =
      (job_id k l : ℕ) (q r : ContactRequest)
      → db.requests.find_unique k s ≡ some q
      → db.requests.find_unique l s ≡ some r
      → is_pending_for job_id q ≡ true
      → is_pending_for job_id r ≡ true
      → k ≡ l

  -- A row after a new request is that request, or was there.
  row_after_create :
      (x : ContactRequest) (s : db.requests.Rows) (k : ℕ) {q : ContactRequest}
      → x.id ≡ db.requests.next_id s
      → db.requests.find_unique k (db.requests.create x s) ≡ some q
      → ((db.requests.next_id s ≡ k) × (x ≡ q)) ⊎ (db.requests.find_unique k s ≡ some q)
  row_after_create x s k {q} key row = elim (Bool-cases (db.requests.next_id s == k)) [
    | inl at ↦ inl (
      (==_iff _ _).0 at,
      some-injective x q (sym (db.requests.find_create x k s key ∙ rw at refl) ∙ row),
    )
    | inr other ↦ inr (sym (db.requests.find_create x k s key ∙ rw other refl) ∙ row)
  ]

  not_new :
      (job job_id actor now id : ℕ) (s : db.requests.Rows) (l : ℕ) (r : ContactRequest)
      → NonePending db job_id s
      → is_pending_for job (new_request job_id actor now id) ≡ true
      → db.requests.find_unique l s ≡ some r
      → is_pending_for job r ≡ true
      → ⊥
  not_new job job_id actor now id s l r none_waits new row waits =
      let same : job_id ≡ job = (==_iff job_id job).0 (ground arith) in
      let off = none_waits l r row in
      let on = subst (λ j. is_pending_for j r ≡ true) (sym same) waits in absurd (cc)

  asks-OnePending :
      (job_id actor now : ℕ) (s : db.requests.Rows)
      → NonePending db job_id s
      → OnePending s
      → OnePending (db.requests.create (new_request job_id actor now (db.requests.next_id s)) s)
  asks-OnePending job_id actor now s none_waits h job k l q r row row' waits waits' =
      let x = new_request job_id actor now (db.requests.next_id s) in
      elim (row_after_create x s k refl row) [
        | inl (at, e) ↦ elim (row_after_create x s l refl row') [
          | inl (at', e') ↦ sym at ∙ at'
          | inr old' ↦
              let new = subst (λ z. is_pending_for job z ≡ true) (sym e) waits in
              absurd (
                not_new job job_id actor now (db.requests.next_id s) s l r none_waits new old'
                  waits')
        ]
        | inr old ↦ elim (row_after_create x s l refl row') [
          | inl (at', e') ↦
              let new = subst (λ z. is_pending_for job z ≡ true) (sym e') waits' in
              absurd (
                not_new job job_id actor now (db.requests.next_id s) s k q none_waits new old waits)
          | inr old' ↦ h job k l q r old old' waits waits'
        ]
      ]

  -- A row that waits after a decision was there and waited before.
  map-decided :
      (decision : Decision) (now job : ℕ) (o : Option ContactRequest) {q : ContactRequest}
      → Option.map (decided decision now) o ≡ some q
      → is_pending_for job q ≡ false
  map-decided decision now job none e = absurd (cc)
  map-decided approve now job (some r) {q} e =
      subst (λ z. is_pending_for job z ≡ false) (some-injective (decided approve now r) q e)
        (ground arith)
  map-decided reject now job (some r) {q} e =
      subst (λ z. is_pending_for job z ≡ false) (some-injective (decided reject now r) q e)
        (ground arith)

  row_before_decision :
      (i : ℕ) (decision : Decision) (now job : ℕ) (s : db.requests.Rows) (k : ℕ)
      {q : ContactRequest}
      → db.requests.find_unique k (db.requests.update i (decided decision now) s) ≡ some q
      → is_pending_for job q ≡ true
      → db.requests.find_unique k s ≡ some q
  row_before_decision i decision now job s k row waits = elim (Bool-cases (i == k)) [
    | inl at ↦
        let done = map-decided decision now job (db.requests.find_unique k s) (
          sym (db.requests.find_update i k (decided decision now) s (λ r. refl) ∙ rw at refl)
          ∙ row) in
        absurd (cc)
    | inr other ↦
        sym (db.requests.find_update i k (decided decision now) s (λ r. refl) ∙ rw other refl) ∙ row
  ]

  ExchangeStep-OnePending :
      (jobs : db.jobs.Rows) (req : ExchangeInput) (s : db.requests.Rows) {t : db.requests.Rows}
      → ExchangeStep db jobs req s t
      → OnePending s
      → OnePending t
  ExchangeStep-OnePending jobs req s stays h = h
  ExchangeStep-OnePending jobs req s (asks user job_id now permitted none_waits) h =
      asks-OnePending job_id user.user_id now s none_waits h
  ExchangeStep-OnePending jobs req s (decides user job_id now decision r permitted row waits other)
        h =
      λ job k l q q' there there' open_one open_two.
        h job k l q q' (row_before_decision r.id decision now job s k there open_one)
          (row_before_decision r.id decision now job s l there' open_two) open_one open_two

  module _ (cooldown_ms : ℕ) (logs : Bool) where
    unfoldable pub serve_all : List ExchangeCall → ExchangeState db → ExchangeState db
    serve_all [] w = w
    serve_all (c ∷ cs) w = serve_all cs (serve db cooldown_ms logs c w)

    -- If no two requests of a job wait at once, none do after any calls of the three routes, one
    -- after the other, whichever of their calls to the database fail.
    pub serve_all-OnePending :
        (cs : List ExchangeCall) (w : ExchangeState db)
        → OnePending w.requests
        → OnePending (serve_all cs w).requests
    unfolding serve_all
    serve_all-OnePending [] w h = h
    serve_all-OnePending (c ∷ cs) w h =
        let (same_jobs, step) = serve-ExchangeStep db cooldown_ms logs c w in
        serve_all-OnePending cs (serve db cooldown_ms logs c w)
          (ExchangeStep-OnePending w.jobs (input_of db cooldown_ms logs c) w.requests step h)
