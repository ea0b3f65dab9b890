-- ===== src/Service/Handlers/Examples.antt =====
-- Tests of the handlers.
use vergil.Prelude.{ℕ, ◌≡◌, ◌≢◌, ◌⊎◌, some}
use vergil.Prelude.Chars.{codes}
use vergil.Service.{InMemoryStore, new_store}
use vergil.Service.Auth.{SingleTokenAuth, new, with_tenant_id}
use vergil.Service.Handlers.{submit_job, get_job, get_job_result, job, new_pending}
use vergil.Service.Handlers.Laws.{app, bearer, handlers-Authorized}

abbrev secret : SingleTokenAuth
secret = with_tenant_id "acme" (new (codes "secret"))

abbrev empty_store : InMemoryStore ℕ ℕ
empty_store = new_store

handlers-Authorized_example :
    ((some (codes "Bearer secret") ≡ bearer secret)
      × ((submit_job (app secret) (some (codes "Bearer secret")) "job" "now" empty_store).0.status
          ≡ 501)
      × (get_job
            (app secret)
            (some (codes "Bearer secret"))
            "job"
            (submit_job (app secret) (some (codes "Bearer secret")) "job" "now" empty_store).1
          ≡ record { status = 200; body = job (new_pending "job" "now") }))
    ⊎ ((some (codes "Bearer secret") ≢ bearer secret)
        × ((submit_job (app secret) (some (codes "Bearer secret")) "job" "now" empty_store).0.status
            ≡ 401)
        × ((submit_job (app secret) (some (codes "Bearer secret")) "job" "now" empty_store).1
            ≡ empty_store)
        × ((get_job (app secret) (some (codes "Bearer secret")) "job" empty_store).status ≡ 401)
        × ((get_job_result (app secret) (some (codes "Bearer secret")) "job" empty_store).status
            ≡ 401))
handlers-Authorized_example =
    handlers-Authorized secret (some (codes "Bearer secret")) "job" "now" empty_store
