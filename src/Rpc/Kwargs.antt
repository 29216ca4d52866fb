-- ===== src/Rpc/Kwargs.antt =====
-- How `inner_func` of grpc_wrapper_with_kwargs ends.
use tiny_chat_microservices.Prelude.{
  ℕ, ◌≤◌, ◌≡◌, refl, Bool, true, false, String, List, [], ◌∷◌, raises, PyError, unbound_local_error,
  arith, ltb, ◌==◌, Bool-cases, inl, inr,
}
use tiny_chat_microservices.Rpc.{Ending, length, missing, build_and_call, call_with_kwargs}

module _ {ℓ} {A : Type ℓ} where
  build_and_call-raises :
      (fields : List String) (type_ok : Bool) (ending : Ending A) (e : PyError)
      → build_and_call fields type_ok ending ≡ raises e
      → (fields ≡ []) × (type_ok ≡ false) × (e ≡ unbound_local_error)
  unfolding build_and_call
  build_and_call-raises [] true ending e h = absurd (ground arith)
  build_and_call-raises [] false ending e h = (refl, refl, ground arith)
  build_and_call-raises (f ∷ fs) type_ok ending e h = absurd (ground arith)

  -- The wrapper raises only UnboundLocalError, and only for a call with at most two positional
  -- arguments whose keywords are as many as the request's slots and name all of them, with a value
  -- that protobuf refuses for its type; every other call ends with a result.
  pub call_with_kwargs-raises :
      (args : ℕ) (kwargs slots : List String) (type_ok : Bool) (ending : Ending A) (e : PyError)
      → call_with_kwargs args kwargs slots type_ok ending ≡ raises e
      → (args ≤ 2)
        × (length kwargs ≡ length slots)
        × (missing kwargs slots ≡ [])
        × (type_ok ≡ false)
        × (e ≡ unbound_local_error)
  unfolding call_with_kwargs
  call_with_kwargs-raises args kwargs slots type_ok ending e h = elim (Bool-cases (ltb 2 args)) [
    | inl p ↦ absurd (ground arith)
    | inr p ↦ elim (Bool-cases (length kwargs == length slots)) [
      | inr q ↦ absurd (ground arith)
      | inl q ↦
          let (f, t, x) =
            build_and_call-raises (missing kwargs slots) type_ok ending e (ground arith) in
          (ground arith, ground arith, f, t, x)
    ]
  ]
