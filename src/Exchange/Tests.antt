-- ===== src/Exchange/Tests.antt =====
-- A job whose sides exchange their contacts, and the theorems of src/routes/contactExchange.ts at
-- its requests.
use home_hero_backend.Prelude.{
  List, Option, [], arith, false, if◌then◌else◌, none, refl, some, true, ℕ, ◌==◌, ◌∷◌, ◌≡◌,
}
use home_hero_backend.Db.ListTable.{cells_table, first_below, gather, many_below}
use home_hero_backend.Exchange.Gate.{
  RiskSignal, banned_keyword, classify_off_platform_risk,
  compute_risk_score_excluding_off_platform_vectors, job_status_awarded_or_later,
  should_bypass_off_platform_contact_block,
}
use home_hero_backend.Exchange.Handlers.{
  cooldown_left, get_contact_exchange, post_contact_decide, post_contact_request, reply_some,
  show_contacts,
}
use home_hero_backend.Exchange.Model.{
  Contact, Decision, ExchangeDb, ExchangeInput, ExchangeReply, ExchangeState, approve, contacts,
  create_request, decided, load_contact, load_job, load_newest, log_security_event, new_request,
  newest, request_call, update_request,
}
use home_hero_backend.Exchange.OnePending.{OnePending, serve_all, serve_all-OnePending}
use home_hero_backend.Exchange.Privacy.{MaySee, answer_of, get_contact_exchange-private}
use home_hero_backend.Exchange.Serving.{ExchangeCall, ask, decide, serve, serve-ExchangeStep}
use home_hero_backend.Exchange.Steps.{ExchangeStep}
use home_hero_backend.Http.{pure, reply_if, respond, some_or_reply, ◌>>=◌}
use home_hero_backend.Jobs.Model.{Job, awarded, consumer}
use home_hero_backend.Text.{non_empty, same_text}

abbrev exchange_db : ExchangeDb
exchange_db = record {
  jobs = cells_table (λ j. j.id);
  users = cells_table (λ u. u.id);
  requests = cells_table (λ r. r.id);
}

abbrev exchange_job : Job
exchange_job = record {
  id = 1;
  consumer_id = 7;
  title = "Paint the fence";
  location = none;
  status = awarded;
  created_at = 100;
  awarded_provider_id = some 8;
  awarded_at = some 200;
  completion_pending_for_user_id = none;
  completed_at = none;
  cancelled_at = none;
  cancelled_by_user_id = none;
  cancellation_reason_code = none;
  cancellation_reason_details = none;
}

abbrev card : ℕ → Contact
card id = record { id = id; name = "Ann"; email = "ann@example.org"; phone = none }

abbrev quiet_exchange : ExchangeState exchange_db
quiet_exchange = record {
  jobs = record { count = 2; cell = λ n. if n == 1 then some exchange_job else none };
  users = record { count = 9; cell = λ n. some (card n) };
  requests = record { count = 1; cell = λ n. none };
  events = [];
  faults = λ n. none;
  calls = 0;
}

abbrev from_user : ℕ → Option Decision → ExchangeInput
from_user id decision = record {
  user = some (record { user_id = id; role = consumer });
  job_id = some 1;
  decision = decision;
}

-- The consumer asks twice, decides alone, and then the provider approves.
abbrev demo_exchange : List ExchangeCall
demo_exchange =
    ask 1000 (from_user 7 none)
    ∷ ask 1001 (from_user 8 none)
    ∷ decide 1002 (from_user 7 (some approve))
    ∷ decide 1003 (from_user 8 (some approve))
    ∷ []

-- For the tests: to unfold this is to unfold the handlers.
unfoldable exchange_calls : Unit {0}
unfolding pure respond ◌>>=◌ reply_if some_or_reply request_call load_job load_contact load_newest
    create_request update_request log_security_event newest cooldown_left reply_some
    post_contact_request post_contact_decide show_contacts get_contact_exchange serve serve_all
    first_below many_below gather same_text non_empty classify_off_platform_risk
    should_bypass_off_platform_contact_block compute_risk_score_excluding_off_platform_vectors
exchange_calls = tt

abbrev agreed_exchange : ExchangeState exchange_db
agreed_exchange = serve_all exchange_db 600000 true demo_exchange quiet_exchange

-- There is one request, and it is approved.
exchange_run :
    (exchange_db.requests.find_unique 1 agreed_exchange.requests
      ≡ some (decided approve 1003 (new_request 1 7 1000 1)))
    × (exchange_db.requests.find_unique 2 agreed_exchange.requests ≡ none)
unfolding exchange_calls
exchange_run = (refl, refl)

serve-ExchangeStep_example :
    ((serve exchange_db 600000 true (ask 1000 (from_user 7 none)) quiet_exchange).jobs
      ≡ quiet_exchange.jobs)
    × ExchangeStep exchange_db quiet_exchange.jobs
        (from_user 7 none)
        quiet_exchange.requests
        (serve exchange_db 600000 true (ask 1000 (from_user 7 none)) quiet_exchange).requests
serve-ExchangeStep_example =
    serve-ExchangeStep exchange_db 600000 true (ask 1000 (from_user 7 none)) quiet_exchange

quiet-OnePending : OnePending exchange_db quiet_exchange.requests
quiet-OnePending job_id k l q r row = absurd (ground arith)

serve_all-OnePending_example : OnePending exchange_db agreed_exchange.requests
serve_all-OnePending_example =
    serve_all-OnePending exchange_db 600000 true demo_exchange quiet_exchange quiet-OnePending

abbrev shown_cards : ExchangeReply
shown_cards = record {
  status = 200;
  body =
      contacts 1 awarded (some (decided approve 1003 (new_request 1 7 1000 1))) (some (card 7))
        (some (card 8));
}

cards_shown :
    answer_of (get_contact_exchange exchange_db 600000 true 2000 (from_user 7 none) agreed_exchange)
    ≡ some shown_cards
unfolding exchange_calls
cards_shown = refl

get_contact_exchange-private_example :
    MaySee exchange_db 600000 true 2000 (from_user 7 none) agreed_exchange
get_contact_exchange-private_example =
    get_contact_exchange-private exchange_db 600000 true 2000 (from_user 7 none) agreed_exchange
      shown_cards cards_shown refl

abbrev scam : List RiskSignal
scam = record { code = banned_keyword; score = 40; detail = some "zelle" } ∷ []

-- A message with a payment keyword passes the block when the job is awarded, though the comment
-- says that it must not; and nothing is left of its score.
scam_passes :
    (should_bypass_off_platform_contact_block (λ s. s) scam (some awarded) false
      ≡ some job_status_awarded_or_later)
    × (compute_risk_score_excluding_off_platform_vectors scam ≡ 0)
unfolding exchange_calls
scam_passes = (refl, refl)
