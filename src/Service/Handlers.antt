-- ===== src/Service/Handlers.antt =====
-- The handlers of the service (crates/vergil-service/src/handlers.rs). `F` is the type of `f64`, `P`
-- that of JSON values, `S` the state of a job store and `E` its errors. A request is the text of its
-- `Authorization` header, if it has one that is text, with what the handler takes from the path.
use vergil.Prelude.{ℕ, String, not, Option, none, ◌<>◌, Result, ok, err, map_err}
use vergil.Prelude.Chars.{Text}
use vergil.Service.{
  Job, JobResult, InMemoryStore, submit, get, get_result, StoreError, not_found, pending,
}
use vergil.Service.Auth.{AuthError, missing_header, malformed, rejected, AuthIdentity, AuthProvider}
pub mod Laws
pub mod Examples

-- The operations of a store that the handlers call, and how its errors are printed.
pub record JobStore (F P S E : Type 0) : Type 0 where
  pub submit : Job F → S → Result E (Unit {0}) × S
  pub get : String → S → Result E (Job F)
  pub get_result : String → S → Result E (JobResult P)
  pub display : E → String

display_error : StoreError → String
display_error (not_found id) = "job not found: " <> id

unfoldable pub in_memory : {F P : Type 0} → JobStore F P (InMemoryStore F P) StoreError
unfolding display_error
in_memory = record {
  submit = λ j s. (ok tt, submit j s);
  get = get;
  get_result = get_result;
  display = display_error;
}

pub record ApiError : Type 0 where
  pub error : String
  pub detail : String

pub data Body (F P : Type 0) : Type 0 where
  api_error : ApiError → Body F P
  job : Job F → Body F P
  proof : P → Body F P
  healthy : Body F P

pub record Response (F P : Type 0) : Type 0 where
  pub status : ℕ
  pub body : Body F P

pub record AppState (F P S E : Type 0) : Type 0 where
  pub store : JobStore F P S E
  pub auth : AuthProvider

-- `Job::new_pending`: the identifier and the time come from outside.
unfoldable pub new_pending : {F : Type 0} → (id now : String) → Job F
new_pending id now = record {
  id = id;
  status = pending;
  submitted_at = now;
  started_at = none;
  completed_at = none;
  cost_usd = none;
  failure_reason = none;
}

error_code : AuthError → String
error_code missing_header = "missing_authorization"
error_code malformed = "malformed_authorization"
error_code rejected = "token_rejected"

auth_detail : AuthError → String
auth_detail missing_header = "missing Authorization header"
auth_detail malformed = "malformed Authorization header (expected `Bearer <token>`)"
auth_detail rejected = "token rejected"

module _ {F P : Type 0} where
  abbrev respond_error : (status : ℕ) (error detail : String) → Response F P
  respond_error status error detail = record {
    status = status;
    body = api_error record { error = error; detail = detail };
  }

  unauthorized : AuthError → Response F P
  unfolding error_code auth_detail
  unauthorized e = respond_error 401 (error_code e) (auth_detail e)

  not_implemented : String → Response F P
  not_implemented message =
      respond_error 501 "not_implemented"
        (message <> " — V2 implements the bodies; Phase 4 ships the contract only")

  unfoldable pub healthz : Response F P
  healthz = record { status = 200; body = healthy }

  module _ {S E : Type 0} (state : AppState F P S E) where
    unfoldable pub require_auth : Option Text → Result (Response F P) AuthIdentity
    unfolding unauthorized
    require_auth header = map_err unauthorized (state.auth.authenticate header)

    submitted : Result E (Unit {0}) × S → Response F P × S
    unfolding not_implemented
    submitted (ok _, t) = (not_implemented "submit_job: queue not wired", t)
    submitted (err e, t) = (respond_error 500 "storage_error" (state.store.display e), t)

    submit_as : Job F → S → Result (Response F P) AuthIdentity → Response F P × S
    unfolding submitted
    submit_as j s (err resp) = (resp, s)
    submit_as j s (ok _) = submitted (state.store.submit j s)

    -- The response and the store behind it.
    unfoldable pub submit_job : (header : Option Text) → (id now : String) → S → Response F P × S
    unfolding submit_as
    submit_job header id now s = submit_as (new_pending id now) s (require_auth header)

    found_job : String → Result E (Job F) → Response F P
    found_job id (ok j) = record { status = 200; body = job j }
    found_job id (err e) = respond_error 404 "not_found" ("unknown job id: " <> id)

    get_job_as : String → S → Result (Response F P) AuthIdentity → Response F P
    unfolding found_job
    get_job_as id s (err resp) = resp
    get_job_as id s (ok _) = found_job id (state.store.get id s)

    unfoldable pub get_job : (header : Option Text) → (id : String) → S → Response F P
    unfolding get_job_as
    get_job header id s = get_job_as id s (require_auth header)

    found_result : String → Result E (JobResult P) → Response F P
    found_result id (ok r) = record { status = 200; body = proof r.proof }
    found_result id (err e) = respond_error 404 "not_found" ("no result for job id (yet): " <> id)

    get_job_result_as : String → S → Result (Response F P) AuthIdentity → Response F P
    unfolding found_result
    get_job_result_as id s (err resp) = resp
    get_job_result_as id s (ok _) = found_result id (state.store.get_result id s)

    unfoldable pub get_job_result : (header : Option Text) → (id : String) → S → Response F P
    unfolding get_job_result_as
    get_job_result header id s = get_job_result_as id s (require_auth header)
