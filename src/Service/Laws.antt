-- ===== src/Service/Laws.antt =====
-- What the job store keeps (crates/vergil-service/src/store.rs).
use mathlib.Core.Path.{subst}
use vergil.Prelude.{
  Bool, true, false, none, if◌then◌else◌, ◌≡◌, refl, ap, ◌∙◌, sym, String, str_eq_refl, Option,
  some, ok, str_eq, str_eq_iff, inl, inr, Bool-cases, Option-cases,
}
use vergil.Service.{
  JobStatus, pending, running, completed, failed, Job, JobResult, InMemoryStore, put, stamp,
  first_time, or_kept, updated, submit, get, replace, update_status, attach, set_result, get_result,
  Reachable, created, submitted, changed, finished,
}

updated-id :
    {F : Type 0} (status : JobStatus) (reason : Option String) (now : String) (job : Job F)
    → (updated status reason now job).id ≡ job.id
unfolding updated stamp
updated-id pending reason now job = refl
updated-id running reason now job = refl
updated-id completed reason now job = refl
updated-id failed reason now job = refl

-- Whether a status ends a job.
abbrev pub ends : JobStatus → Bool
ends completed = true
ends failed = true
ends _ = false

abbrev pub starts : JobStatus → Bool
starts running = true
starts _ = false

-- A time that was set stays; one that was not is set now if the event takes place.
abbrev pub stamped : (takes_place : Bool) → Option String → (now : String) → Option String
stamped takes_place (some t) now = some t
stamped takes_place none now = if takes_place then some now else none

-- The job after a change of status.
abbrev pub IsChanged : {F : Type 0} → JobStatus → Option String → String → Job F → Job F → Type 0
IsChanged status reason now j k =
    (k.status ≡ status)
    × (k.id ≡ j.id)
    × (k.submitted_at ≡ j.submitted_at)
    × (k.started_at ≡ stamped (starts status) j.started_at now)
    × (k.completed_at ≡ stamped (ends status) j.completed_at now)
    × (k.cost_usd ≡ j.cost_usd)
    × (k.failure_reason ≡ elim reason [ none ↦ j.failure_reason | some r ↦ some r ])

unstamped : (t : Option String) (now : String) → t ≡ stamped false t now
unstamped none now = refl
unstamped (some t) now = refl

first-stamped : (t : Option String) (now : String) → first_time t now ≡ stamped true t now
first-stamped none now = refl
first-stamped (some t) now = refl

kept_reason :
    (reason kept : Option String)
    → or_kept reason kept ≡ elim reason [ none ↦ kept | some r ↦ some r ]
kept_reason none kept = refl
kept_reason (some r) kept = refl

updated-IsChanged :
    {F : Type 0} (status : JobStatus) (reason : Option String) (now : String) (j : Job F)
    → IsChanged status reason now j (updated status reason now j)
unfolding updated stamp
updated-IsChanged pending reason now j =
    (refl, refl, refl, unstamped _ now, unstamped _ now, refl, kept_reason reason _)
updated-IsChanged running reason now j =
    (refl, refl, refl, first-stamped _ now, unstamped _ now, refl, kept_reason reason _)
updated-IsChanged completed reason now j =
    (refl, refl, refl, unstamped _ now, first-stamped _ now, refl, kept_reason reason _)
updated-IsChanged failed reason now j =
    (refl, refl, refl, unstamped _ now, first-stamped _ now, refl, kept_reason reason _)

module _ {F P : Type 0} where
  -- Every job stands under its own id, and every result under the id of a job.
  abbrev Kept : InMemoryStore F P → Type 0
  Kept s =
      ((id : String) (job : Job F) → s.jobs id ≡ some job → job.id ≡ id)
      × ((id : String) (r : JobResult P)
          → s.results id ≡ some r
          → (job : Job F) × (s.jobs id ≡ some job))

  submit-Kept : (job : Job F) (s : InMemoryStore F P) → Kept s → Kept (submit job s)
  unfolding submit
  submit-Kept job s (ids, rs) = (
    (λ id j e. elim (Bool-cases (str_eq id job.id)) [
      | inl y ↦
          let q : job ≡ j = cc (rw y at e) in
          ap (λ (k : Job F). k.id) (sym q) ∙ sym ((str_eq_iff id job.id).0 y)
      | inr n ↦ ids id j (rw n at e)
    ]),
    λ id r e. elim (Bool-cases (str_eq id job.id)) [
      | inl y ↦ rw y (job, refl)
      | inr n ↦ rw n (rs id r e)
    ],
  )

  update-Kept :
      (id : String) (status : JobStatus) (reason : Option String) (now : String)
      (s t : InMemoryStore F P)
      → update_status id status reason now s ≡ ok t
      → Kept s
      → Kept t
  unfolding update_status replace
  update-Kept id status reason now s t e (ids, rs) = elim (Option-cases (s.jobs id)) [
    | inl no_job ↦ cc (rw (no_job, replace) at e)
    | inr (old, q) ↦
        let next : InMemoryStore F P = record s {
          jobs = put id (updated status reason now old) s.jobs;
        } in
        let same : next ≡ t = cc (rw (q, replace) at e) in
        rw (sym same) (
          (λ k j h. elim (Bool-cases (str_eq k id)) [
            | inl y ↦
                let qj : updated status reason now old ≡ j = cc (rw y at h) in
                ap (λ (x : Job F). x.id) (sym qj)
                ∙ (updated-id status reason now old ∙ (ids id old q ∙ sym ((str_eq_iff k id).0 y)))
            | inr n ↦ ids k j (rw n at h)
          ]),
          λ k r h. elim (Bool-cases (str_eq k id)) [
            | inl y ↦ rw y (_, refl)
            | inr n ↦ rw n (rs k r h)
          ],
        )
  ]

  set_result-Kept :
      (id : String) (result : JobResult P) (s t : InMemoryStore F P)
      → set_result id result s ≡ ok t
      → Kept s
      → Kept t
  unfolding set_result attach
  set_result-Kept id result s t e (ids, rs) = elim (Option-cases (s.jobs id)) [
    | inl no_job ↦ cc (rw (no_job, attach) at e)
    | inr (job, q) ↦
        let next : InMemoryStore F P = record s { results = put id result s.results } in
        let same : next ≡ t = cc (rw (q, attach) at e) in
        rw (sym same) (
          ids,
          λ k r h. elim (Bool-cases (str_eq k id)) [
            | inl y ↦ (job, ap s.jobs ((str_eq_iff k id).0 y) ∙ q)
            | inr n ↦ rs k r (rw n at h)
          ],
        )
  ]

  reachable-Kept : {s : InMemoryStore F P} → Reachable s → Kept s
  reachable-Kept created = ((λ id job e. cc e), λ id r e. cc e)
  reachable-Kept (submitted {s = s} job h) = submit-Kept job s (reachable-Kept h)
  reachable-Kept (changed {s = s} {t = t} id status reason now h e) =
      update-Kept id status reason now s t e (reachable-Kept h)
  reachable-Kept (finished {s = s} {t = t} id result h e) =
      set_result-Kept id result s t e (reachable-Kept h)

  -- In every store that requests lead to, a result that can be read belongs to a job that can be
  -- read under the same id and that carries this id.
  pub get_result-job :
      (s : InMemoryStore F P) (id : String) (r : JobResult P)
      → Reachable s
      → get_result id s ≡ ok r
      → (job : Job F) × (get id s ≡ ok job) × (job.id ≡ id)
  unfolding get_result get
  get_result-job s id r h e = elim (Option-cases (s.results id)) [
    | inl no_result ↦ cc (rw no_result at e)
    | inr (x, q) ↦
        let (ids, rs) = reachable-Kept h in
        let (job, j) = rs id x q in (job, rw j refl, ids id job j)
  ]

  -- A change of status that succeeds stores the new status; sets the time of start when the job
  -- starts and the time of completion when it ends, where they were not set before; replaces the
  -- reason of failure only by a given one; and changes nothing else of the job and no result.
  pub update_status-IsChanged :
      (id : String) (status : JobStatus) (reason : Option String) (now : String)
      (s t : InMemoryStore F P) (j : Job F)
      → get id s ≡ ok j
      → update_status id status reason now s ≡ ok t
      → (k : Job F) × (get id t ≡ ok k) × IsChanged status reason now j k × (t.results ≡ s.results)
  unfolding get update_status replace
  update_status-IsChanged id status reason now s t j g u = elim (Option-cases (s.jobs id)) [
    | inl no_job ↦ cc (rw no_job at g)
    | inr (old, q) ↦
        let same_job : old ≡ j = cc (rw q at g) in
        let next : InMemoryStore F P = record s {
          jobs = put id (updated status reason now old) s.jobs;
        } in
        let same : next ≡ t = cc (rw (q, replace) at u) in
        rw (sym same) (
          updated status reason now old,
          rw (str_eq_refl id) refl,
          subst (λ i. IsChanged status reason now i (updated status reason now old)) same_job
              (updated-IsChanged status reason now old),
          refl,
        )
  ]
