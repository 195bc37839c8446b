-- ===== src/Platform/Runs.antt =====
-- Sequences of requests: whatever the callers of app/services ask for, in whatever order, with
-- objects that may be out of date.
use aigov.Approvals.{ApprovalDecision, fan_out, set_product_approval, set_vendor_approval}
use aigov.Authorisation.{authorise_use_case}
use aigov.ClassificationService.{ClassificationProposal}
use aigov.ClassificationService.Snapshot.{SnapshotOptions, snapshot_classification}
use aigov.Lifecycle.Advance.{advance_use_case}
use aigov.Lifecycle.Kept.{advance_use_case-Keeps, re_evaluate-Keeps}
use aigov.Lifecycle.ReEvaluate.{re_evaluate}
use aigov.Model.Enums.Assessment.{ReviewDecision}
use aigov.Model.Rows.Domain.{UseCase}
use aigov.Model.Session.{Session, TenantContext}
use aigov.Platform.Clearances.{
  fan_out-Keeps, set_product_approval-Keeps, set_vendor_approval-Keeps,
  snapshot_classification-Keeps,
}
use aigov.Platform.Granting.{authorise_use_case-Keeps}
use aigov.Platform.Lawful.{IsLawful, IsLawful-same, IsLawful-step}
use aigov.Platform.Requests.{record_review-Keeps, reopen-Keeps, submit_for_review-Keeps}
use aigov.Prelude.{List, Option, String, refl, ℕ}
use aigov.Review.{record_review, reopen, submit_for_review}

-- One request, or the passing of time between requests. A request that is rolled back is none.
pub data Request : Session → Session → Type 0 where
  walks : {db : Session} (u : UseCase) (actor : ℕ) → Request db (advance_use_case u actor db).1
  re_evaluates : {db : Session} (u : UseCase) (actor : ℕ) → Request db (re_evaluate u actor db).1
  authorises_it :
      {db : Session} (id : ℕ) (statement : String) (ctx : TenantContext)
      → Request db (authorise_use_case id statement ctx db).1
  submits :
      {db : Session} (id expected : ℕ) (ctx : TenantContext)
      → Request db (submit_for_review id expected ctx db).1
  reviews_it :
      {db : Session} (id : ℕ) (decision : ReviewDecision) (remark : Option String) (expected : ℕ)
      (ctx : TenantContext)
      → Request db (record_review id decision remark expected ctx db).1
  reopens :
      {db : Session} (id expected : ℕ) (ctx : TenantContext)
      → Request db (reopen id expected ctx db).1
  clears_vendor :
      {db : Session} (tenant_id vendor_id : ℕ) (d : ApprovalDecision)
      → Request db (set_vendor_approval tenant_id vendor_id d db).1
  clears_product :
      {db : Session} (tenant_id product_id : ℕ) (d : ApprovalDecision)
      → Request db (set_product_approval tenant_id product_id d db).1
  fans_out : {db : Session} (ids : List ℕ) (actor : ℕ) → Request db (fan_out ids actor db).1
  classifies :
      {db : Session} (u : UseCase) (proposal : ClassificationProposal) (options : SnapshotOptions)
      (actor : ℕ)
      → Request db (snapshot_classification u proposal options actor db).1
  waits : {db : Session} (later : ℕ) → Request db (record db { now = later })

pub data Run : Session → Session → Type 0 where
  stop_here : {db : Session} → Run db db
  next : {db db' db'' : Session} → Request db db' → Run db' db'' → Run db db''

Request-IsLawful : {db db' : Session} → Request db db' → IsLawful db → IsLawful db'
Request-IsLawful (walks u actor) = (advance_use_case-Keeps IsLawful IsLawful-step u actor).at _
Request-IsLawful (re_evaluates u actor) = (re_evaluate-Keeps IsLawful IsLawful-step u actor).at _
Request-IsLawful (authorises_it id statement ctx) = (authorise_use_case-Keeps id statement ctx).at _
Request-IsLawful (submits id expected ctx) = (submit_for_review-Keeps id expected ctx).at _
Request-IsLawful (reviews_it id decision remark expected ctx) =
    (record_review-Keeps id decision remark expected ctx).at _
Request-IsLawful (reopens id expected ctx) = (reopen-Keeps id expected ctx).at _
Request-IsLawful (clears_vendor tenant_id vendor_id d) =
    (set_vendor_approval-Keeps tenant_id vendor_id d).at _
Request-IsLawful (clears_product tenant_id product_id d) =
    (set_product_approval-Keeps tenant_id product_id d).at _
Request-IsLawful (fans_out ids actor) = (fan_out-Keeps ids actor).at _
Request-IsLawful (classifies u proposal options actor) =
    (snapshot_classification-Keeps u proposal options actor).at _
Request-IsLawful (waits later) = IsLawful-same _ _ refl refl refl

-- A lawful session stays lawful through every sequence of advances, re-evaluations, authorisations,
-- submissions, reviews, reopenings, clearances, fan-outs and snapshots, successful or not, on current
-- or outdated objects, with any waiting between them: at its end the transitions of every use case
-- still lead along legal edges from REQUESTED to its state, hints are there exactly in HELD, ids are
-- unique, and each use case in AUTHORISED has an authorisation of its own tenant that names it.
pub Run-IsLawful : {db db' : Session} → Run db db' → IsLawful db → IsLawful db'
Run-IsLawful stop_here h = h
Run-IsLawful (next step rest) h = Run-IsLawful rest (Request-IsLawful step h)
