-- ===== src/Service/Examples.antt =====
-- The job store at concrete inputs (crates/vergil-service/src/store.rs).
use vergil.Prelude.{ℕ, ◌≡◌, refl, none, some, Result, ok, err}
use vergil.Service.{
  pending, completed, failed, Job, StoreError, InMemoryStore, new_store, submit, get, update_status,
  set_result, get_result, Reachable, created, submitted, changed, finished,
}
use vergil.Service.Laws.{get_result-job, update_status-IsChanged, IsChanged}

abbrev job : Job ℕ
job = record {
  id = "job-1";
  status = pending;
  submitted_at = "monday";
  started_at = none;
  completed_at = none;
  cost_usd = none;
  failure_reason = none;
}

-- The stores after submission, after completion and with a result.
abbrev Store : Type 0
Store = InMemoryStore ℕ ℕ

abbrev after : Store → Result StoreError Store → Store
after fallback (ok s) = s
after fallback (err e) = fallback

abbrev store_1 : Store
store_1 = submit job new_store

abbrev store_2 : Store
store_2 = after new_store (update_status "job-1" completed none "tuesday" store_1)

abbrev store_3 : Store
store_3 = after new_store (set_result "job-1" (record { proof = 5 }) store_2)

completion : update_status "job-1" completed none "tuesday" store_1 ≡ ok store_2
unfolding submit update_status
completion = refl

filing : set_result "job-1" (record { proof = 5 }) store_2 ≡ ok store_3
unfolding submit update_status set_result
filing = refl

store_3-Reachable : Reachable store_3
store_3-Reachable =
    finished "job-1" _ (changed "job-1" completed none "tuesday" (submitted job created) completion)
      filing

read_back : get_result "job-1" store_3 ≡ ok (record { proof = 5 })
unfolding submit update_status set_result get_result
read_back = refl

get_result-job_example : (j : Job ℕ) × (get "job-1" store_3 ≡ ok j) × (j.id ≡ "job-1")
get_result-job_example =
    get_result-job store_3 "job-1" (record { proof = 5 }) store_3-Reachable read_back

abbrev completed_job : Job ℕ
completed_job = record job { status = completed; completed_at = some "tuesday" }

stored : get "job-1" store_2 ≡ ok completed_job
unfolding submit update_status get
stored = refl

abbrev store_4 : Store
store_4 = after new_store (update_status "job-1" failed (some "late") "friday" store_2)

failing_late : update_status "job-1" failed (some "late") "friday" store_2 ≡ ok store_4
unfolding submit update_status
failing_late = refl

update_status-IsChanged_example :
    (k : Job ℕ) × (get "job-1" store_4 ≡ ok k)
    × IsChanged failed (some "late") "friday" completed_job k
    × (store_4.results ≡ store_2.results)
update_status-IsChanged_example =
    update_status-IsChanged "job-1" failed (some "late") "friday" store_2 store_4 completed_job
      stored failing_late
