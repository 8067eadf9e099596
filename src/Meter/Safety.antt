-- ===== src/Meter/Safety.antt =====
-- When ServeHTTP of internal/server/llm_meter.go lets a request through.
use diverge.Base.{
  Bool, true, false, Option, some, ◌≡◌, sym, ap, ◌∙◌, inl, inr, arith, Text, ok, err, Result-cases,
  Option-cases, subst,
}
use diverge.Base.Int.{ℤ}
use diverge.Auth.Types.{Go, Claims, Macaroon}
use diverge.Auth.Mint.{Provider}
use diverge.Auth.Extract.{verify_and_extract}
use diverge.Meter.Task.{MeterRequest}
use diverge.Meter.Handler.{
  MeterResponse, HttpRequest, Wire, check_model, is_valid_usage, decode_meter_macaroon_token,
  extract_meter_bearer_token,
}
use diverge.Meter.Serve.{
  TokenStore, TaskApi, authorize, namespace_of, check_token_revoked, ensure_not_revoked,
  meter_request, serve_http,
}
use diverge.Meter.Saved.{IsMetered, ReturnsAnAttempt, meter_request-allowed}

module _ (go : Go) (wire : Wire (go.Float)) {S : Type 0} (tokens : Option (TokenStore S))
    (api : TaskApi (go.Float) S) where
  open go use {Float}

  -- The token in the Authorization header yields the claims, the body decodes to the request, whose
  -- usage is valid, and the claims allow its model.
  abbrev pub IsAuthorized : Provider → ℤ → HttpRequest → Claims Float → MeterRequest Float → Type 0
  IsAuthorized verifier now r c req =
      (raw : Text) × (mac : Macaroon) × (decode_meter_macaroon_token go wire
          (extract_meter_bearer_token go wire r.authorization)
        ≡ some raw)
      × (verify_and_extract go verifier raw now ≡ ok (mac, c))
      × (wire.decode_request r.body ≡ some req)
      × (is_valid_usage go wire req ≡ true)
      × (check_model go wire c req ≡ ok tt)

  authorize_inv :
      (verifier : Provider) (has_client : Bool) (now : ℤ) (r : HttpRequest) (s : S)
      (c : Claims Float) (req : MeterRequest Float)
      → authorize go wire tokens api verifier has_client now r s ≡ ok (c, req)
      → IsAuthorized verifier now r c req
  unfolding authorize
  authorize_inv verifier has_client now r s c req h =
      let bearer = extract_meter_bearer_token go wire r.authorization in
      elim (Option-cases (decode_meter_macaroon_token go wire bearer)) [
        | inl e ↦ absurd (ground (arith, e))
        | inr (raw, e) ↦ elim (Result-cases (verify_and_extract go verifier raw now)) [
          | inr (x, v) ↦ absurd (ground (arith, e, v))
          | inl ((mac, d), v) ↦ elim (Option-cases (wire.decode_request r.body)) [
            | inl b ↦ absurd (ground (arith, e, v, b))
            | inr (body, b) ↦
                let found : (d ≡ c)
                    × (body ≡ req)
                    × (is_valid_usage go wire body ≡ true)
                    × (check_model go wire d body ≡ ok tt) =
                  ground (arith, e, v, b) in
                (
                  raw,
                  mac,
                  e,
                  v ∙ ap (λ x. ok (mac, x)) found.0,
                  b ∙ ap (λ x. some x) found.1,
                  rw (sym found.1) found.2,
                  rw (sym found.0, sym found.1) found.3,
                )
          ]
        ]
      ]

  ensure_not_revoked_inv :
      (task_id namespace : Text) (s : S)
      → ensure_not_revoked go wire tokens api task_id namespace s ≡ ok tt
      → check_token_revoked go wire tokens api tokens task_id namespace s ≡ ok false
  unfolding ensure_not_revoked
  ensure_not_revoked_inv task_id namespace s h =
      elim (Result-cases (check_token_revoked go wire tokens api tokens task_id namespace s)) [
        | inl (b, e) ↦ ground (arith, e)
        | inr (x, e) ↦ absurd (ground (arith, e))
      ]

  check_model-refused :
      (c : Claims Float) (req : MeterRequest Float) (x : MeterResponse Float)
      → check_model go wire c req ≡ err x
      → x.allowed ≡ false
  unfolding check_model
  check_model-refused c req x h = ground arith

  ensure-refused :
      (task_id namespace : Text) (s : S) (x : MeterResponse Float)
      → ensure_not_revoked go wire tokens api task_id namespace s ≡ err x
      → x.allowed ≡ false
  unfolding ensure_not_revoked
  ensure-refused task_id namespace s x h =
      elim (Result-cases (check_token_revoked go wire tokens api tokens task_id namespace s)) [
        | inl (b, e) ↦ ground (arith, e)
        | inr (y, e) ↦ ground (arith, e)
      ]

  authorize-refused :
      (verifier : Provider) (has_client : Bool) (now : ℤ) (r : HttpRequest) (s : S)
      (x : MeterResponse Float)
      → authorize go wire tokens api verifier has_client now r s ≡ err x
      → x.allowed ≡ false
  unfolding authorize
  authorize-refused verifier has_client now r s x h =
      let bearer = extract_meter_bearer_token go wire r.authorization in
      elim (Option-cases (decode_meter_macaroon_token go wire bearer)) [
        | inl e ↦ ground (arith, e)
        | inr (raw, e) ↦ elim (Result-cases (verify_and_extract go verifier raw now)) [
          | inr (y, v) ↦ ground (arith, e, v)
          | inl ((mac, d), v) ↦
              elim (Result-cases (
                ensure_not_revoked go wire tokens api d.task_id (namespace_of go wire tokens api d)
                  s)) [
                    | inr (y, f) ↦
                        let no = ensure-refused d.task_id _ s y f in ground (arith, e, v, f, no)
                    | inl (_, f) ↦ elim (Option-cases (wire.decode_request r.body)) [
                      | inl b ↦ ground (arith, e, v, f, b)
                      | inr (body, b) ↦ elim (Result-cases (check_model go wire d body)) [
                        | inr (y, g) ↦
                            let no = check_model-refused d body y g in
                            ground (arith, e, v, f, b, g, no)
                        | inl (_, g) ↦ ground (arith, e, v, f, b, g)
                      ]
                    ]
                  ]
        ]
      ]

  serve_http-eq-meter_request :
      (verifier : Provider) (has_client : Bool) (now : ℤ) (wait : S → S) (r : HttpRequest) (s : S)
      (c : Claims Float) (req : MeterRequest Float)
      → authorize go wire tokens api verifier has_client now r s ≡ ok (c, req)
      → ensure_not_revoked go wire tokens api c.task_id (namespace_of go wire tokens api c) (wait s)
        ≡ ok tt
      → serve_http go wire tokens api verifier has_client now wait r s
        ≡ meter_request go wire tokens api c req (wait s)
  unfolding serve_http meter_request
  serve_http-eq-meter_request verifier has_client now wait r s c req e f = rw (e, f, serve_http)

  -- Where a retry succeeds with what one of its attempts returns, ServeHTTP of the meter lets a
  -- request through only if the token in its Authorization header yields claims under the
  -- verifier's key, its body decodes to a report of valid usage whose model the claims allow, the
  -- token is not revoked once the lock is held, and in some state the claims' task was counted with
  -- that report and saved within its budgets; the state that is left is the saved one.
  pub serve_http_allowed :
      (retries : ReturnsAnAttempt go wire tokens api) (verifier : Provider) (has_client : Bool)
      (now : ℤ) (wait : S → S) (r : HttpRequest) (s : S)
      → (serve_http go wire tokens api verifier has_client now wait r s).0.allowed ≡ true
      → (c : Claims Float) × (req : MeterRequest Float) × IsAuthorized verifier now r c req
        × (check_token_revoked go wire tokens api tokens c.task_id
              (namespace_of go wire tokens api c)
              (wait s)
            ≡ ok false)
        × IsMetered go wire tokens api c req
            (serve_http go wire tokens api verifier has_client now wait r s).1
  unfolding serve_http
  serve_http_allowed retries verifier has_client now wait r s h =
      elim (Result-cases (authorize go wire tokens api verifier has_client now r s)) [
        | inr (x, e) ↦
            let no = authorize-refused verifier has_client now r s x e in
            absurd (cc (no, let h' : x.allowed ≡ true = rw (e, serve_http) at h in h'))
        | inl ((c, req), e) ↦
            let authorized = authorize_inv verifier has_client now r s c req e in
            let ns = namespace_of go wire tokens api c in
            elim (Result-cases (ensure_not_revoked go wire tokens api c.task_id ns (wait s))) [
              | inr (x, f) ↦
                  let no = ensure-refused c.task_id ns (wait s) x f in
                  absurd (cc (no, let h' : x.allowed ≡ true = rw (e, f, serve_http) at h in h'))
              | inl (_, f) ↦
                  let q = serve_http-eq-meter_request verifier has_client now wait r s c req e f in
                  let metered =
                    meter_request-allowed go wire tokens api retries c req (wait s)
                      (subst (λ (y : MeterResponse Float × S). y.0.allowed ≡ true) q h) in
                  (
                    c,
                    req,
                    authorized,
                    ensure_not_revoked_inv c.task_id ns (wait s) f,
                    subst (λ (y : MeterResponse Float × S). IsMetered go wire tokens api c req y.1)
                        (sym q) metered,
                  )
            ]
      ]
