-- ===== src/Adapter/Protocol/Results.antt =====
-- The contract of a result of crates/flutterdec-adapter/src/protocol.rs, alone and against its
-- request.
use flutterdec.Common.{
  list_eq_iff, Text, chars, Option-cases, ok, ◌≡◌, refl, ◌≢◌, ◌↔◌, inl, inr, Option, none, some,
  List, arith, ℕ_eq, List_eq, Option_eq, ℕ_order, Text_order,
}
use flutterdec.Adapter.Primitives.{RelativePath}
use flutterdec.Adapter.Model.{Diagnostic}
use flutterdec.Adapter.Protocol.Documents.{
  BackendId, Backend_eq, backend_eq_iff, RequestedBackend, fixed, requested_name, parse_requested,
  FallbackReason, AdapterRequest, AdapterStatus, AdapterErrorCode, AdapterError, AdapterResult,
  ok_result, failed_result, unsupported_result,
}
use flutterdec.Adapter.Protocol.Validation.{validate_result, validate_against}

-- Success carries a model and the backend that made it; failure carries a reason and neither.
pub data Payload (r : AdapterResult) : Type 0 where
  produced :
      (model : RelativePath) (backend : BackendId)
      → r.status ≡ AdapterStatus.ok
      → r.model ≡ some model
      → r.error ≡ none
      → r.resolved_backend ≡ some backend
      → Payload r
  refused :
      (reason : AdapterError)
      → r.status ≢ AdapterStatus.ok
      → r.model ≡ none
      → r.error ≡ some reason
      → r.resolved_backend ≡ none
      → Payload r

Payload-of_valid : (r : AdapterResult) → validate_result r ≡ ok tt → Payload r
unfolding validate_result
Payload-of_valid r h = elim (Option-cases r.error) [
  | inl clean ↦ elim (Option-cases r.model) [
    | inl missing ↦ absurd (ground arith)
    | inr (m, has_model) ↦ elim (Option-cases r.resolved_backend) [
      | inl nobody ↦ absurd (ground arith)
      | inr (b, by) ↦ produced m b (ground arith) has_model clean by
    ]
  ]
  | inr (e, failed) ↦ refused e (λ s. ground arith) (ground arith) failed (ground arith)
]

valid-of_Payload :
    (r : AdapterResult)
    → r.protocol_major ≡ 1
    → r.model_major ≡ 4
    → Payload r
    → validate_result r ≡ ok tt
unfolding validate_result
valid-of_Payload r p m (produced model backend s has_model clean by) = ground arith
valid-of_Payload r p m (refused reason s no_model failed nobody) = ground arith

-- `validate` accepts a result exactly when it has the accepted versions and its payload fits its
-- status.
pub validate_result_iff :
    (r : AdapterResult)
    → (validate_result r ≡ ok tt) ↔ ((r.protocol_major ≡ 1) × (r.model_major ≡ 4) × Payload r)
unfolding validate_result
validate_result_iff r = (
  λ h. (ground arith, ground arith, Payload-of_valid r h),
  λ (p, m, payload). valid-of_Payload r p m payload,
)

-- Every result that the constructors make is valid, whatever they are given.
pub constructors_valid :
    (model : RelativePath) (backend : BackendId) (reason : Option FallbackReason)
    (diagnostics : List Diagnostic) (code : AdapterErrorCode) (message : Text)
    → (validate_result (ok_result model backend reason diagnostics) ≡ ok tt)
      × (validate_result (failed_result code message) ≡ ok tt)
      × (validate_result (unsupported_result code message) ≡ ok tt)
unfolding validate_result ok_result unsupported_result
constructors_valid model backend reason diagnostics code message = (refl, refl, refl)

-- A pinned backend is never substituted: a result that is accepted against a request for one backend
-- comes from that backend if it comes from any, and reports no fallback.
pub pinned_backend :
    (r : AdapterResult) (q : AdapterRequest) (b : BackendId)
    → q.requested_backend ≡ fixed b
    → validate_against r q ≡ ok tt
    → ((r.status ≡ AdapterStatus.ok) → r.resolved_backend ≡ some b)
      × ((c : BackendId) → r.resolved_backend ≡ some c → c ≡ b)
      × (r.fallback_reason ≡ none)
unfolding validate_against validate_result
pinned_backend r q b pin h = (
  λ s. elim (Option-cases r.resolved_backend) [
    | inl e ↦ absurd (ground arith)
    | inr (c, e) ↦ ground (arith, backend_eq_iff b c)
  ],
  λ c e. ground (arith, backend_eq_iff b c),
  ground arith,
)

-- Reading a backend token gives a request exactly when the request is written as that token: the
-- four spellings are the only ones, and no two requests share one.
pub parse_requested_iff :
    (t : Text) (b : RequestedBackend) → (parse_requested t ≡ some b) ↔ (requested_name b ≡ t)
unfolding parse_requested requested_name
parse_requested_iff t b = ground (
  arith,
  list_eq_iff t (chars "auto"),
  list_eq_iff t (chars "internal"),
  list_eq_iff t (chars "blutter"),
  list_eq_iff t (chars "r2flutter"),
)
