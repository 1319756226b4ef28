-- ===== src/Gateway/Request.antt =====
-- The parts of a request that the middlewares of internal/gateway read, and what they answer.
use payment_gateway.Base.{ℕ, String, Option}
use payment_gateway.Idempotency.{Response}

-- The answers that end a request early, by the code of the `apperr` error.
pub data Problem : Type 0 where
  idempotency_missing idempotency_invalid idempotency_mismatch idempotency_in_use : Problem
  invalid_api_key parameter_invalid service_unavailable rate_limited : Problem

-- The merchant is that of the principal in the context, `none` where there is none; the body is
-- `none` where it cannot be read or is above 1 MiB.
pub record Request : Type 0 where
  pub method : String
  pub path : String
  pub idempotency_key : String
  pub merchant : Option String
  pub body : Option String

-- What a handler writes, with the request id that is in the response's header.
pub record Served : Type 0 where
  pub status : ℕ
  pub body : String
  pub request_id : String

pub data Reply : Type 0 where
  problem : Problem → Reply
  served : Served → Reply
  replayed : Response → Reply
