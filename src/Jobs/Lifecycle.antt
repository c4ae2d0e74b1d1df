-- ===== src/Jobs/Lifecycle.antt =====
-- The seven job handlers together: any sequence of their requests as steps on the tables.
pub mod Diagram
pub mod ActiveDisputes
pub mod DisputeLaws
use home_hero_backend.Prelude.{Bool, List, [], ℕ, ◌∷◌}
use home_hero_backend.Jobs.Award.{post_job_award}
use home_hero_backend.Jobs.Cancellation.{post_job_cancel}
use home_hero_backend.Jobs.Completion.{post_job_confirm_complete, post_job_mark_complete}
use home_hero_backend.Jobs.Disputes.{post_admin_resolve_dispute, post_job_disputes}
use home_hero_backend.Jobs.Request.{AuthRequest, Zod}
use home_hero_backend.Jobs.Start.{post_job_start}
use home_hero_backend.Jobs.World.{Db, Reply, World}

module _ (db : Db) (zod : Zod) where
  -- A request to one of the handlers, with its time and whether security events are audited.
  pub data Request : Type 0 where
    award_request : Bool → ℕ → AuthRequest zod.Raw → Request
    start_request : Bool → ℕ → AuthRequest zod.Raw → Request
    mark_request : Bool → ℕ → AuthRequest zod.Raw → Request
    confirm_request : Bool → ℕ → AuthRequest zod.Raw → Request
    cancel_request : Bool → ℕ → AuthRequest zod.Raw → Request
    dispute_request : Bool → ℕ → AuthRequest zod.Raw → Request
    resolve_request : Bool → ℕ → AuthRequest zod.Raw → Request

  unfoldable pub respond_to : Request → World db → Reply × World db
  respond_to (award_request audits now req) = post_job_award db zod audits now req
  respond_to (start_request audits now req) = post_job_start db zod audits now req
  respond_to (mark_request audits now req) = post_job_mark_complete db zod audits now req
  respond_to (confirm_request audits now req) = post_job_confirm_complete db zod audits now req
  respond_to (cancel_request audits now req) = post_job_cancel db zod audits now req
  respond_to (dispute_request audits now req) = post_job_disputes db zod audits now req
  respond_to (resolve_request audits now req) = post_admin_resolve_dispute db zod audits now req

  -- The state after a sequence of requests.
  unfoldable pub serve : List Request → World db → World db
  serve [] w = w
  serve (q ∷ qs) w = serve qs (respond_to q w).1
