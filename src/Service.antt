-- ===== src/Service.antt =====
-- The in-memory job store of the service (crates/vergil-service/src/store.rs and job.rs). `F` is the
-- type of `f64` and `P` the type of JSON values. A hash map is a function from keys.
pub mod Laws
pub mod Examples
pub mod Auth
pub mod Handlers
use vergil.Prelude.{
  ℕ, ◌≡◌, String, Bool, true, false, Option, none, some, Result, ok, err, ok_or, if◌then◌else◌,
  str_eq,
}

pub data JobStatus : Type 0 where
  pending running completed failed : JobStatus

pub record Job (F : Type 0) : Type 0 where
  pub id : String
  pub status : JobStatus
  pub submitted_at : String
  pub started_at : Option String
  pub completed_at : Option String
  pub cost_usd : Option F
  pub failure_reason : Option String

pub record JobResult (P : Type 0) : Type 0 where
  pub proof : P

-- `StoreError::NotFound`; the in-memory store has no other error.
pub data StoreError : Type 0 where
  not_found : (id : String) → StoreError

pub record InMemoryStore (F P : Type 0) : Type 0 where
  pub jobs : String → Option (Job F)
  pub results : String → Option (JobResult P)

-- `HashMap::insert`
abbrev pub put : {A : Type 0} → String → A → (String → Option A) → String → Option A
put key a map k = if str_eq k key then some a else map k

-- The first time of an event is kept.
abbrev pub first_time : Option String → String → Option String
first_time none now = some now
first_time (some t) now = some t

stamp : {F : Type 0} → JobStatus → String → Job F → Job F
stamp running now job = record job { started_at = first_time job.started_at now }
stamp completed now job = record job { completed_at = first_time job.completed_at now }
stamp failed now job = record job { completed_at = first_time job.completed_at now }
stamp pending now job = job

abbrev or_kept : Option String → Option String → Option String
or_kept none kept = kept
or_kept (some reason) kept = some reason

updated : {F : Type 0} → JobStatus → Option String → String → Job F → Job F
unfolding stamp
updated status reason now job =
    let stamped = stamp status now job in
    record stamped { status = status; failure_reason = or_kept reason stamped.failure_reason }

module _ {F P : Type 0} where
  abbrev pub new_store : InMemoryStore F P
  new_store = record { jobs = λ k. none; results = λ k. none }

  unfoldable pub submit : Job F → InMemoryStore F P → InMemoryStore F P
  submit job s = record s { jobs = put job.id job s.jobs }

  unfoldable pub get : String → InMemoryStore F P → Result StoreError (Job F)
  get id s = ok_or (s.jobs id) (not_found id)

  replace :
      Option (Job F)
      → String
      → (Job F → Job F)
      → InMemoryStore F P
      → Result StoreError (InMemoryStore F P)
  replace none id f s = err (not_found id)
  replace (some job) id f s = ok (record s { jobs = put id (f job) s.jobs })

  unfoldable pub update_status :
      String
      → JobStatus
      → Option String
      → (now : String) → InMemoryStore F P
      → Result StoreError (InMemoryStore F P)
  unfolding replace updated
  update_status id status reason now s = replace (s.jobs id) id (updated status reason now) s

  attach :
      Option (Job F)
      → String
      → JobResult P
      → InMemoryStore F P
      → Result StoreError (InMemoryStore F P)
  attach none id result s = err (not_found id)
  attach (some job) id result s = ok (record s { results = put id result s.results })

  unfoldable pub set_result :
      String → JobResult P → InMemoryStore F P → Result StoreError (InMemoryStore F P)
  unfolding attach
  set_result id result s = attach (s.jobs id) id result s

  unfoldable pub get_result : String → InMemoryStore F P → Result StoreError (JobResult P)
  get_result id s = ok_or (s.results id) (not_found id)

  -- The stores that requests lead to.
  pub data Reachable : InMemoryStore F P → Type 0 where
    created : Reachable new_store
    submitted : {s : InMemoryStore F P} (job : Job F) → Reachable s → Reachable (submit job s)
    changed :
        {s t : InMemoryStore F P} (id : String) (status : JobStatus) (reason : Option String)
        (now : String)
        → Reachable s
        → update_status id status reason now s ≡ ok t
        → Reachable t
    finished :
        {s t : InMemoryStore F P} (id : String) (result : JobResult P)
        → Reachable s
        → set_result id result s ≡ ok t
        → Reachable t
