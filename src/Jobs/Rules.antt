-- ===== src/Jobs/Rules.antt =====
-- The rules of Http/Rules for the calls of the job handlers. A call that throws ends the handler,
-- so each rule asks that the state before it, with one call more, will do for the response to an
-- error; where the call goes on, it hands the rest the value and the state.
pub mod Queries
use home_hero_backend.Prelude.{
  Bool, Bool-cases, List, Option, Option-cases, String, [], append-nil, append_assoc, false,
  if◌then◌else◌, inl, inr, map, map-append, refl, subst, sym, true, ℕ, ◌++◌, ◌+◌, ◌∷◌, ◌≡◌,
}
use home_hero_backend.Http.{Exit, Fields, pure, try_catch, ◌>>=◌}
use home_hero_backend.Http.Rules.{Ends, bind_rule, goes, stops, throws}
use home_hero_backend.Jobs.Request.{Parsed, invalid, issue_message, valid}
use home_hero_backend.Jobs.World.{
  Db, Effect, M, Reply, World, audit, audit_security_event, emit, emit_all, emit_each, error,
  external, fail_after, is_missing_db_column_error, missing_column_to, notification, transaction,
  valid_or_reply, webhook,
}

-- One call to the outside was made.
abbrev pub called : {db : Db} → World db → World db
called w = record w { calls = w.calls + 1 }

abbrev pub sent : {db : Db} → Effect → World db → World db
sent e w = record w { outbox = w.outbox ++ e ∷ []; calls = w.calls + 1 }

abbrev pub optional : {A : Type 0} → Bool → A → List A
optional true a = a ∷ []
optional false a = []

-- A call to an injected function without its text.
pub data Sent : Type 0 where
  to_user : ℕ → String → Sent
  audited : String → Sent
  posted : String → Sent

abbrev pub summary : Effect → Sent
summary (notification user type content) = to_user user type
summary (audit type metadata) = audited type
summary (webhook type payload) = posted type

pub map-optional :
    {A B : Type 0} (f : A → B) (b : Bool) (a : A) → map f (optional b a) ≡ optional b (f a)
map-optional f true a = refl
map-optional f false a = refl

pub ruleset outbox_laws = (map-append, append_assoc, map-optional)

-- The audit call, where the function was injected.
abbrev pub audited_by : {db : Db} → Bool → Effect → World db → World db
audited_by b e w = record w {
  outbox = w.outbox ++ optional b e;
  calls = if b then w.calls + 1 else w.calls;
}

module _ {db : Db} {internal : Reply} (P : Reply → World db → Type 0) where
  fail_after-Ends :
      (Q : World db → Type 0) (m : String) (x : Exit Reply (World db) (Unit {0}))
      → Ends internal P (λ _ w'. P internal w') x
      → Ends internal P (λ _ w'. Q w') (fail_after m x)
  unfolding fail_after
  fail_after-Ends Q m _ (goes a w' h) = throws m w' h
  fail_after-Ends Q m _ (stops r w' h) = stops r w' h
  fail_after-Ends Q m _ (throws e w' h) = throws m w' h

  -- All calls of the list were made, or some of them, and then the whole throws.
  emit_all-Ends :
      (Q : World db → Type 0) (es : List Effect) (w : World db)
      → ((o : List Effect) (n : ℕ) → P internal (record w { outbox = o; calls = n }))
      → ((n : ℕ) → Q (record w { outbox = w.outbox ++ es; calls = n }))
      → Ends internal P (λ _ w'. Q w') (emit_all es w)
  unfolding emit_all pure emit
  emit_all-Ends Q [] w stop go =
      goes tt w (subst (λ o. Q (record w { outbox = o })) (append-nil w.outbox) (go w.calls))
  emit_all-Ends Q (e ∷ es) w stop go = elim (Option-cases (w.faults w.calls)) [
    | inl quiet ↦
        rw (quiet, emit_all, emit, external)
          (emit_all-Ends Q es (sent e w) stop λ n.
            subst (λ o. Q (record w { outbox = o; calls = n }))
              (sym (append_assoc w.outbox (e ∷ []) es)) (go n))
    | inr (m, loud) ↦
        rw (loud, emit_all, emit, external)
          (fail_after-Ends Q m _
            (emit_all-Ends (λ w'. P internal w') es (called w) stop λ n. stop _ n))
  ]

module _ {db : Db} {A : Type 0} {internal : Reply} {E : Reply → World db → Type 0}
    {K : A → World db → Type 0} where
  pub external_rule :
      {B : Type 0} (result : World db → B) (effect : World db → World db) (f : B → M db A)
      (w : World db)
      → E internal (called w)
      → Ends internal E K (f (result w) (effect (called w)))
      → Ends internal E K ((external result effect >>= f) w)
  unfolding ◌>>=◌ external
  external_rule result effect f w stop go = elim (Option-cases (w.faults w.calls)) [
    | inl e ↦ rw (e, ◌>>=◌, external) go
    | inr (m, e) ↦ rw (e, ◌>>=◌, external) (throws m _ stop)
  ]

  pub emit_rule :
      (e : Effect) (f : Unit {0} → M db A) (w : World db)
      → E internal (called w)
      → Ends internal E K (f tt (sent e w))
      → Ends internal E K ((emit e >>= f) w)
  unfolding emit
  emit_rule e f w stop go =
      external_rule (λ w. tt) (λ w. record w { outbox = w.outbox ++ e ∷ [] }) f w stop go

  pub audit_rule :
      (b : Bool) (type : String) (metadata : Fields) (f : Unit {0} → M db A) (w : World db)
      → E internal (called w)
      → Ends internal E K (f tt (audited_by b (audit type metadata) w))
      → Ends internal E K ((audit_security_event b type metadata >>= f) w)
  unfolding audit_security_event ◌>>=◌
  audit_rule true type metadata f w stop go = emit_rule (audit type metadata) f w stop go
  audit_rule false type metadata f w stop go =
      subst (λ o. Ends internal E K (f tt (record w { outbox = o }))) (append-nil w.outbox) go

  pub valid_or_reply_rule :
      {B : Type 0} (p : Parsed B) (f : B → M db A) (w : World db)
      → ((m : Option String) → p ≡ invalid m → E (error 400 (issue_message m)) w)
      → ((a : B) → p ≡ valid a → Ends internal E K (f a w))
      → Ends internal E K ((valid_or_reply p >>= f) w)
  unfolding valid_or_reply ◌>>=◌
  valid_or_reply_rule (valid a) f w stop go = go a refl
  valid_or_reply_rule (invalid m) f w stop go = stops _ w (stop m refl)

  -- A failure inside leaves the tables and the outbox as they were.
  pub transaction_rule :
      {B : Type 0} (m : M db B) (f : B → M db A) (w : World db)
      → Ends {R = Reply} internal
          (λ r w'. (n : ℕ) → E r (record w { calls = n }))
          (λ b w'. Ends internal E K (f b w'))
          (m w)
      → Ends internal E K ((transaction m >>= f) w)
  unfolding ◌>>=◌ transaction
  transaction_rule {B} m f w h = go (m w) h
    where
      go :
          (x : Exit Reply (World db) B)
          → Ends {R = Reply} internal
              (λ r w'. (n : ℕ) → E r (record w { calls = n }))
              (λ b w'. Ends internal E K (f b w'))
              x
          → Ends internal E K ((transaction (λ _. x) >>= f) w)
      go _ (goes b w' h) = h
      go _ (stops r w' h) = stops r _ (h w'.calls)
      go _ (throws e w' h) = throws e _ (h w'.calls)

  -- A chain of calls that throws has made some of them.
  pub emit_each_rule :
      (es : List Effect) (f : Unit {0} → M db A) (w : World db)
      → ((o : List Effect) (n : ℕ) → E internal (record w { outbox = o; calls = n }))
      → ((n : ℕ) → Ends internal E K (f tt (record w { outbox = w.outbox ++ es; calls = n })))
      → Ends internal E K ((emit_each es >>= f) w)
  unfolding emit_each ◌>>=◌ pure emit
  emit_each_rule [] f w stop go =
      subst (λ o. Ends internal E K (f tt (record w { outbox = o }))) (append-nil w.outbox)
        (go w.calls)
  emit_each_rule (e ∷ es) f w stop go = elim (Option-cases (w.faults w.calls)) [
    | inl quiet ↦
        rw (quiet, ◌>>=◌, emit_each, emit, external)
          (emit_each_rule es f (sent e w) stop λ n.
            subst (λ o. Ends internal E K (f tt (record w { outbox = o; calls = n })))
              (sym (append_assoc w.outbox (e ∷ []) es)) (go n))
    | inr (m, loud) ↦
        rw (loud, ◌>>=◌, emit_each, emit, external) (throws m _ (stop w.outbox (w.calls + 1)))
  ]

  pub emit_all_rule :
      (es : List Effect) (f : Unit {0} → M db A) (w : World db)
      → ((o : List Effect) (n : ℕ) → E internal (record w { outbox = o; calls = n }))
      → ((n : ℕ) → Ends internal E K (f tt (record w { outbox = w.outbox ++ es; calls = n })))
      → Ends internal E K ((emit_all es >>= f) w)
  emit_all_rule es f w stop go =
      bind_rule _ _ _ (emit_all-Ends E (λ w'. Ends internal E K (f tt w')) es w stop go)

  pub try_rule :
      {B : Type 0} (m : M db B) (answer : Reply) (f : B → M db A) (w : World db)
      → Ends {R = Reply} internal
          (λ r w'. E r w' × E internal w' × E answer w')
          (λ b w'. Ends internal E K (f b w'))
          (m w)
      → Ends internal E K ((try_catch m (missing_column_to answer) >>= f) w)
  unfolding ◌>>=◌ try_catch missing_column_to
  try_rule {B} m answer f w h = go (m w) h
    where
      go :
          (x : Exit Reply (World db) B)
          → Ends {R = Reply} internal
              (λ r w'. E r w' × E internal w' × E answer w')
              (λ b w'. Ends internal E K (f b w'))
              x
          → Ends internal E K ((try_catch (λ _. x) (missing_column_to answer) >>= f) w)
      go _ (goes b w' h) = h
      go _ (stops r w' h) = stops r w' h.0
      go _ (throws e w' h) = elim (Bool-cases (is_missing_db_column_error e)) [
        | inl c ↦ rw (c, ◌>>=◌, try_catch, missing_column_to) (stops answer _ h.2)
        | inr c ↦ rw (c, ◌>>=◌, try_catch, missing_column_to) (throws e _ h.1)
      ]
