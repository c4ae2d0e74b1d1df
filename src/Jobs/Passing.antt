-- ===== src/Jobs/Passing.antt =====
-- Computations of handlers along the calls that do not fail: one rule for each way to begin a `do`
-- block, as Jobs/Rules has for all exits.
pub mod Queries
use home_hero_backend.Prelude.{
  Bool, List, Option, String, [], append-nil, arith, false, inl, inr, none, not, refl, some, subst,
  true, ℕ, ◌&&◌, ◌++◌, ◌==◌, ◌∷◌, ◌≡◌, ◌≢◌, ◌⊎◌,
}
use home_hero_backend.Http.{
  Exit, Fields, next, pure, reply_if, run, some_or_reply, try_catch, ◌>>=◌,
}
use home_hero_backend.Jobs.Model.{UserRole, admin, consumer, provider, same_role}
use home_hero_backend.Jobs.Request.{Parsed, valid}
use home_hero_backend.Jobs.Rules.{audited_by, called}
use home_hero_backend.Jobs.World.{
  Db, Effect, M, Reply, World, audit, audit_security_event, emit, emit_each, external, transaction,
  valid_or_reply,
}

-- The computation goes on, with a value and a state of which `K` holds.

pub data Runs {db : Db} {A : Type 0} (K : A → World db → Type 0)
    : Exit Reply (World db) A → Type 0 where
  runs : (a : A) (w : World db) → K a w → Runs K (next a w)

-- The computation comes to its end with a response of that status.
abbrev pub Passes : {db : Db} → ℕ → Exit Reply (World db) Reply → Type 0
Passes s x = Runs (λ r w. r.status ≡ s) x

pub Passes-run :
    {db : Db} {s : ℕ} (internal : Reply) (m : M db Reply) (w : World db)
    → Passes s (m w)
    → (run internal m w).0.status ≡ s
unfolding run
Passes-run {db} {s} internal m w h = go (m w) h
  where
    go : (x : Exit Reply (World db) Reply) → Passes s x → (run internal (λ _. x) w).0.status ≡ s
    go _ (runs r w' e) = e

emit_each-Runs :
    {db : Db} (es : List Effect) {K : Unit {0} → World db → Type 0} (w : World db)
    → ((n : ℕ) → w.faults n ≡ none)
    → ((o : List Effect) (n : ℕ) → K tt (record w { outbox = o; calls = n }))
    → Runs K (emit_each es w)
unfolding emit_each emit ◌>>=◌ external pure
emit_each-Runs [] w clear h = runs _ _ (h _ _)
emit_each-Runs (e ∷ es) w clear h =
    rw (clear w.calls, emit_each, emit, ◌>>=◌, external) (emit_each-Runs es _ clear h)

module _ {db : Db} {A : Type 0} {K : A → World db → Type 0} where
  pub pass_some :
      {B : Type 0} {o : Option B} (r : Reply) (f : B → M db A) (w : World db) {b : B}
      → o ≡ some b
      → Runs K (f b w)
      → Runs K ((some_or_reply o r >>= f) w)
  unfolding some_or_reply ◌>>=◌ pure
  pass_some r f w e h = rw (e, some_or_reply, ◌>>=◌) h

  pub pass_if :
      {b : Bool} (r : Reply) (f : Unit {0} → M db A) (w : World db)
      → b ≡ false
      → Runs K (f tt w)
      → Runs K ((reply_if b r >>= f) w)
  unfolding reply_if ◌>>=◌ pure
  pass_if r f w e h = rw (e, reply_if, ◌>>=◌) h

  pub pass_external :
      {B : Type 0} (result : World db → B) (effect : World db → World db) (f : B → M db A)
      (w : World db)
      → w.faults w.calls ≡ none
      → Runs K (f (result w) (effect (called w)))
      → Runs K ((external result effect >>= f) w)
  unfolding external ◌>>=◌
  pass_external result effect f w e h = rw (e, external, ◌>>=◌) h

  pub pass_emit :
      (x : Effect) (f : Unit {0} → M db A) (w : World db)
      → w.faults w.calls ≡ none
      → Runs K (f tt (record (called w) { outbox = w.outbox ++ x ∷ [] }))
      → Runs K ((emit x >>= f) w)
  unfolding emit
  pass_emit x f w e h =
      pass_external (λ w. tt) (λ w. record w { outbox = w.outbox ++ x ∷ [] }) f w e h

  pub pass_audit :
      (b : Bool) (type : String) (metadata : Fields) (f : Unit {0} → M db A) (w : World db)
      → w.faults w.calls ≡ none
      → Runs K (f tt (audited_by b (audit type metadata) w))
      → Runs K ((audit_security_event b type metadata >>= f) w)
  unfolding audit_security_event ◌>>=◌
  pass_audit true type metadata f w e h = pass_emit (audit type metadata) f w e h
  pass_audit false type metadata f w e h =
      subst (λ o. Runs K (f tt (record w { outbox = o }))) (append-nil w.outbox) h

  pub pass_pure : (a : A) (w : World db) → K a w → Runs K (pure a w)
  unfolding pure
  pass_pure a w e = runs a w e

  pub pass_bind :
      {B : Type 0} (m : M db B) (f : B → M db A) (w : World db)
      → Runs (λ b w'. Runs K (f b w')) (m w)
      → Runs K ((m >>= f) w)
  unfolding ◌>>=◌
  pass_bind {B} m f w h = go (m w) h
    where
      go :
          (x : Exit Reply (World db) B)
          → Runs (λ b w'. Runs K (f b w')) x
          → Runs K (((λ _. x) >>= f) w)
      go _ (runs b w' k) = k

  pub pass_transaction :
      {B : Type 0} (m : M db B) (f : B → M db A) (w : World db)
      → Runs (λ b w'. Runs K (f b w')) (m w)
      → Runs K ((transaction m >>= f) w)
  unfolding ◌>>=◌ transaction
  pass_transaction {B} m f w h = go (m w) h
    where
      go :
          (x : Exit Reply (World db) B)
          → Runs (λ b w'. Runs K (f b w')) x
          → Runs K ((transaction (λ _. x) >>= f) w)
      go _ (runs b w' k) = k

  pub pass_try :
      {B : Type 0} (m : M db B) (g : String → M db B) (f : B → M db A) (w : World db)
      → Runs (λ b w'. Runs K (f b w')) (m w)
      → Runs K ((try_catch m g >>= f) w)
  unfolding ◌>>=◌ try_catch
  pass_try {B} m g f w h = go (m w) h
    where
      go :
          (x : Exit Reply (World db) B)
          → Runs (λ b w'. Runs K (f b w')) x
          → Runs K ((try_catch (λ _. x) g >>= f) w)
      go _ (runs b w' k) = k

  pub pass_valid :
      {B : Type 0} {p : Parsed B} (f : B → M db A) (w : World db) {b : B}
      → p ≡ valid b
      → Runs K (f b w)
      → Runs K ((valid_or_reply p >>= f) w)
  unfolding valid_or_reply ◌>>=◌ pure
  pass_valid f w e h = rw (e, valid_or_reply, ◌>>=◌) h

  pub pass_emit_each :
      (es : List Effect) (f : Unit {0} → M db A) (w : World db)
      → ((n : ℕ) → w.faults n ≡ none)
      → ((o : List Effect) (n : ℕ) → Runs K (f tt (record w { outbox = o; calls = n })))
      → Runs K ((emit_each es >>= f) w)
  pass_emit_each es f w clear h = pass_bind _ _ _ (emit_each-Runs es _ clear h)

-- The tests on the sender of a request about a job.
pub participant_role :
    (r : UserRole) → r ≢ admin → (not (same_role r consumer) && not (same_role r provider)) ≡ false
participant_role consumer h = refl
participant_role provider h = refl
participant_role admin h = absurd (h refl)

pub among_two : {me a b : ℕ} → (me ≡ a) ⊎ (me ≡ b) → (not (me == a) && not (me == b)) ≡ false
among_two (inl e) = ground arith
among_two (inr e) = ground arith
