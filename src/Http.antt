-- ===== src/Http.antt =====
-- What Go's net/http gives back for a request that a program of the repository sends.
use egvm.Prelude.{ℕ, Option}
use egvm.Bytes.{Bytes}

-- An error with a nil response, or a response with its status and its body, `none` where reading
-- the body fails.
pub data Response : Type 0 where
  no_response : Response
  response : ℕ → Option Bytes → Response
