-- ===== src/Exceptions.antt =====
-- ai-service/app/core/exceptions.py: the exceptions that the modelled services raise or tell apart,
-- and the result of a call that may raise.
use mkc.Prelude.{Bool, true, false, ◌≡◌, refl, ◌⊎◌, inl, inr}
use mkc.Prelude.Text.{Text, codes}

-- `api` stands for any other `APIException`, by its code; `other` for an exception of another class.
pub data Exception : Type 0 where
  retrieval_forbidden retrieval_unavailable : Exception
  llm_unavailable llm_timeout llm_stream : Exception
  embedding_authentication embedding_unavailable dimension_mismatch : Exception
  invalid_chunking_strategy : Text → Exception
  recursion_error : Exception
  api : Text → Exception
  other : Exception

-- `isinstance(exc, APIException)`
unfoldable pub is_api : Exception → Bool
is_api recursion_error = false
is_api other = false
is_api _ = true

-- `exc.code`; an exception with no code has none.
unfoldable pub code_of : Exception → Text
code_of retrieval_forbidden = codes "FORBIDDEN"
code_of retrieval_unavailable = codes "RETRIEVAL_UNAVAILABLE"
code_of llm_unavailable = codes "LLM_UNAVAILABLE"
code_of llm_timeout = codes "LLM_TIMEOUT"
code_of llm_stream = codes "LLM_STREAM_ERROR"
code_of embedding_authentication = codes "EMBEDDING_AUTH_FAILED"
code_of embedding_unavailable = codes "EMBEDDING_UNAVAILABLE"
code_of dimension_mismatch = codes "DIMENSION_MISMATCH"
code_of (invalid_chunking_strategy name) = codes "INVALID_STRATEGY"
code_of (api code) = code
code_of _ = codes ""

pub data Result {ℓ} (A : Type ℓ) : Type ℓ where
  ok : A → Result A
  raise : Exception → Result A

-- `call`, and what follows it if it returns
infixl 5 ◌>>=◌
abbrev pub ◌>>=◌ {ℓ κ} : {A : Type ℓ} {B : Type κ} → Result A → (A → Result B) → Result B
raise e >>= next = raise e
ok value >>= next = next value

pub Result-cases {ℓ} :
    {A : Type ℓ} (m : Result A) → ((e : Exception) × (m ≡ raise e)) ⊎ ((a : A) × (m ≡ ok a))
Result-cases (ok a) = inr (a, refl)
Result-cases (raise e) = inl (e, refl)

-- where a chain of calls returned, its first call did, and so did the rest with its value
pub >>=-eq-ok {κ ℓ} :
    {B : Type κ} {A : Type ℓ} (call : Result A) (next : A → Result B) {out : B}
    → call >>= next ≡ ok out
    → (value : A) × (call ≡ ok value) × (next value ≡ ok out)
>>=-eq-ok (raise e) next returned = cc
>>=-eq-ok (ok value) next returned = (value, refl, returned)

pub ok_injective {ℓ} : {A : Type ℓ} {a b : A} → ok a ≡ ok b → a ≡ b
ok_injective h = cc
