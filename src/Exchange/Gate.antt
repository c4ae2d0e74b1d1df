-- ===== src/Exchange/Gate.antt =====
-- src/services/contactExchangeGate.ts: which messages may carry contact details.
use home_hero_backend.Prelude.{
  Bool, List, Option, String, [], any, false, if◌then◌else◌, length, ltb, map, none, not, select,
  some, true, ℕ, ◌&&◌, ◌+◌, ◌||◌, ◌∷◌,
}
use home_hero_backend.Jobs.Model.{JobStatus, same_status}
use home_hero_backend.Text.{non_empty, same_text}

pub data RiskCode : Type 0 where
  banned_keyword contact_info too_many_jobs repeated_message repeated_bid_message : RiskCode

pub record RiskSignal : Type 0 where
  pub code : RiskCode
  pub score : ℕ
  pub detail : Option String

pub record OffPlatformRisk : Type 0 where
  pub has_contact_info : Bool
  pub off_platform_keywords : List String
  pub scam_keywords : List String
  pub has_any_off_platform_vector : Bool

pub data GateReason : Type 0 where
  job_status_awarded_or_later contact_exchange_approved : GateReason

abbrev is_contact_info : RiskSignal → Bool
is_contact_info s = elim s.code [ contact_info ↦ true | _ ↦ false ]

abbrev is_banned_keyword : RiskSignal → Bool
is_banned_keyword s = elim s.code [ banned_keyword ↦ true | _ ↦ false ]

-- `OFFPLATFORM_KEYWORDS`.
abbrev is_off_platform_keyword : String → Bool
is_off_platform_keyword d = same_text d "telegram" || same_text d "whatsapp"

abbrev detail_text : RiskSignal → String
detail_text s = elim s.detail [ none ↦ "" | some d ↦ d ]

abbrev is_filled : String → Bool
is_filled d = elim (non_empty d) [ none ↦ false | some text ↦ true ]

-- `to_lower` is the platform's `toLowerCase`.
abbrev banned_details : (String → String) → List RiskSignal → List String
banned_details to_lower signals =
    select is_filled (map (λ s. to_lower (detail_text s)) (select is_banned_keyword signals))

unfoldable pub classify_off_platform_risk : (String → String) → List RiskSignal → OffPlatformRisk
classify_off_platform_risk to_lower signals =
    let details = banned_details to_lower signals in
    let off_platform = select is_off_platform_keyword details in
    let scam = select (λ d. not (is_off_platform_keyword d)) details in
    record {
      has_contact_info = any is_contact_info signals;
      off_platform_keywords = off_platform;
      scam_keywords = scam;
      has_any_off_platform_vector =
          any is_contact_info signals || ltb 0 (length off_platform) || ltb 0 (length scam);
    }

-- A missing status is none.
abbrev pub job_status_allows_off_platform_contact : Option JobStatus → Bool
job_status_allows_off_platform_contact none = false
job_status_allows_off_platform_contact (some status) = not (same_status status JobStatus.opened)

-- The reason for a bypass, where there is one.
unfoldable pub should_bypass_off_platform_contact_block :
    (String → String) → List RiskSignal → Option JobStatus → Bool → Option GateReason
should_bypass_off_platform_contact_block to_lower signals status exchange_approved =
    if not (classify_off_platform_risk to_lower signals).has_any_off_platform_vector
    then none
    else if job_status_allows_off_platform_contact status
    then some job_status_awarded_or_later
    else if exchange_approved
    then some contact_exchange_approved
    else none

abbrev total_score : List RiskSignal → ℕ
total_score [] = 0
total_score (s ∷ ss) = s.score + total_score ss

-- Every keyword is left out, whichever it is.
unfoldable pub compute_risk_score_excluding_off_platform_vectors : List RiskSignal → ℕ
compute_risk_score_excluding_off_platform_vectors signals =
    total_score (select (λ s. not (is_contact_info s) && not (is_banned_keyword s)) signals)
