-- ===== src/Rpc.antt =====
-- chat/common/src/chatp/rpc: the result of a gRPC call (model.py), the wrapper that turns a stub's
-- method into a call with a result (grpc_wrapper.py), and what is assumed of the
-- channel between a client and a servicer.
pub mod Kwargs
use tiny_chat_microservices.Prelude.{
  ℕ, String, ◌≡◌, Bool, true, false, ◌||◌, Option, some, List, [], ◌∷◌, Outcome, returns, raises,
  unbound_local_error, if◌then◌else◌, ltb, ◌==◌, str_eq,
}

-- `grpc.StatusCode`: the codes that the program names, and the others.
pub data StatusCode : Type 0 where
  deadline_exceeded unavailable resource_exhausted other_code : StatusCode

-- The members of `GrpcStatus` other than SUCCESS.
pub data GrpcFailure : Type 0 where
  failed timeout args_mismatch args_type_error interface_error : GrpcFailure

-- What `CallResult.info` holds.
pub data Info : Type 0 where
  code : StatusCode → Info
  text : String → Info
  exception : Info

-- `CallResult`: `data` is set exactly with SUCCESS, and `info` exactly with the other statuses.
pub data CallResult {ℓ} (A : Type ℓ) : Type ℓ where
  success : A → CallResult A
  failure : GrpcFailure → Info → CallResult A

-- How the wrapped stub method ends under the circuit breaker.
pub data Ending {ℓ} (A : Type ℓ) : Type ℓ where
  responded : A → Ending A
  rpc_error : StatusCode → Ending A
  circuit_broken raised : Ending A

unfoldable pub exception_inspector : StatusCode → Bool
exception_inspector unavailable = true
exception_inspector resource_exhausted = true
exception_inspector deadline_exceeded = true
exception_inspector other_code = false

pub of_rpc_code : StatusCode → GrpcFailure
of_rpc_code deadline_exceeded = timeout
of_rpc_code _ = failed

module _ {ℓ} {A : Type ℓ} where
  -- `inner_func` of grpc_wrapper_with_request
  pub call_with_request : Ending A → CallResult A
  unfolding of_rpc_code
  call_with_request (responded response) = success response
  call_with_request (rpc_error rpc_code) = failure (of_rpc_code rpc_code) (code rpc_code)
  call_with_request circuit_broken = failure failed (text "CircuitBreaker Broken")
  call_with_request raised = failure failed exception

pub str_in : String → List String → Bool
str_in s [] = false
str_in s (t ∷ ts) = str_eq t s || str_in s ts

pub length : List String → ℕ
length [] = 0
length (s ∷ ss) = let n = length ss in Prim.Native.Nat.suc n

-- `filter(lambda field: field not in kwargs, request_slots)`
pub missing : List String → List String → List String
unfolding str_in
missing kwargs [] = []
missing kwargs (field ∷ slots) =
    let rest = missing kwargs slots in if str_in field kwargs then rest else field ∷ rest

module _ {ℓ} {A : Type ℓ} where
  -- The `try` that builds the request. A TypeError's handler reads `info`, which no statement of
  -- that path has assigned.
  build_and_call : List String → Bool → Ending A → Outcome (CallResult A)
  unfolding call_with_request
  build_and_call [] true ending = returns (call_with_request ending)
  build_and_call [] false ending = raises unbound_local_error
  build_and_call (field ∷ fields) type_ok ending =
      returns (failure args_mismatch (text "missing fields"))

  -- `inner_func` of grpc_wrapper_with_kwargs: the number of positional arguments, the names of the
  -- keyword arguments, the request's slots, whether protobuf accepts the values, and the ending of
  -- the call.
  unfoldable pub call_with_kwargs :
      ℕ → List String → List String → Bool → Ending A → Outcome (CallResult A)
  unfolding build_and_call missing length
  call_with_kwargs args kwargs request_slots type_ok ending =
      if ltb 2 args
      then returns (failure interface_error (text "wrapped args must be keyword args."))
      else if length kwargs == length request_slots
      then build_and_call (missing kwargs request_slots) type_ok ending
      else returns (failure args_mismatch (text "wrapped args mismatched."))

-- What is assumed of gRPC between a servicer and its client: a call that succeeds hands over the
-- reply that the servicer returned. A servicer that raised, or returned nothing because the call
-- was cancelled, has sent no reply.
pub record Channel {ℓ} (A : Type ℓ) : Type ℓ where
  pub deliver : Outcome (Option A) → CallResult A
  pub faithful :
      (served : Outcome (Option A)) (reply : A)
      → deliver served ≡ success reply
      → served ≡ returns (some reply)
