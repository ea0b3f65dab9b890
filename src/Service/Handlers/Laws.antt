-- ===== src/Service/Handlers/Laws.antt =====
-- Who may use the handlers (crates/vergil-service/src/auth.rs and handlers.rs).
use vergil.Prelude.{
  String, ◌≡◌, refl, ◌≢◌, ◌⊎◌, inl, inr, Option, none, some, ◌++◌, Bool-cases, Option-cases,
  str_eq_refl, ok, err,
}
use vergil.Prelude.Chars.{
  Text, codes, eqb, strip_prefix, strip_prefix-append, strip_prefix-eq-some, eqb→eq, eqb_refl,
}
use vergil.Service.{InMemoryStore, StoreError, submit, get}
use vergil.Service.Auth.{
  AuthError, missing_header, malformed, rejected, SingleTokenAuth, authenticate, provider,
}
use vergil.Service.Handlers.{
  AppState, in_memory, new_pending, require_auth, submit_job, get_job, get_job_result, job,
}

-- The header that presents the token.
abbrev pub bearer : SingleTokenAuth → Option Text
bearer auth = some (codes "Bearer " ++ auth.expected)

-- The state of the service with the in-memory store.
abbrev pub app : {F P : Type 0} → SingleTokenAuth → AppState F P (InMemoryStore F P) StoreError
app auth = record { store = in_memory; auth = provider auth }

-- Exactly the header with the token is accepted.
authenticate-cases :
    (auth : SingleTokenAuth) (header : Option Text)
    → ((header ≡ bearer auth)
        × (authenticate auth header ≡ ok record { tenant_id = auth.tenant_id }))
      ⊎ ((header ≢ bearer auth) × ((e : AuthError) × (authenticate auth header ≡ err e)))
unfolding authenticate
authenticate-cases auth none = inr (λ e. cc e, (missing_header, refl))
authenticate-cases auth (some h) = elim (Option-cases (strip_prefix (codes "Bearer ") h)) [
  | inl n ↦ inr (
    λ e. cc (e, n, strip_prefix-append (codes "Bearer ") auth.expected),
    (malformed, rw (n) refl),
  )
  | inr (token, t) ↦ elim (Bool-cases (eqb token auth.expected)) [
    | inl y ↦ inl (
      cc (strip_prefix-eq-some (codes "Bearer ") h t, eqb→eq token auth.expected y),
      rw (t, y) refl,
    )
    | inr y ↦ inr (
      λ e.
          cc (e, t, strip_prefix-append (codes "Bearer ") auth.expected, eqb_refl auth.expected, y),
      (rejected, rw (t, y) refl),
    )
  ]
]

-- A submitted job can be read.
get-submit :
    {F P : Type 0} (id now : String) (s : InMemoryStore F P)
    → get id (submit (new_pending id now) s) ≡ ok (new_pending id now)
unfolding get submit new_pending
get-submit id now s = rw (str_eq_refl id) refl

-- Over the in-memory store: with the header `Bearer` and the token, a submission answers 501 and the
-- submitted job can be read as pending; with any other header each of the handlers that submit a job,
-- read one and read its result answers 401, and a submission leaves the store as it was.
pub handlers-Authorized :
    {F P : Type 0} (auth : SingleTokenAuth) (header : Option Text) (id now : String)
    (s : InMemoryStore F P)
    → ((header ≡ bearer auth)
        × ((submit_job (app auth) header id now s).0.status ≡ 501)
        × (get_job (app auth) header id (submit_job (app auth) header id now s).1
            ≡ record { status = 200; body = job (new_pending id now) }))
      ⊎ ((header ≢ bearer auth)
          × ((submit_job (app auth) header id now s).0.status ≡ 401)
          × ((submit_job (app auth) header id now s).1 ≡ s)
          × ((get_job (app auth) header id s).status ≡ 401)
          × ((get_job_result (app auth) header id s).status ≡ 401))
unfolding submit_job get_job get_job_result require_auth provider in_memory
handlers-Authorized auth header id now s = elim (authenticate-cases auth header) [
  | inl (h, a) ↦ inl (h, rw (a) refl, rw (a) (rw (get-submit id now s) refl))
  | inr (h, (e, a)) ↦ inr (h, rw (a) refl, rw (a) refl, rw (a) refl, rw (a) refl)
]
