-- ===== src/Llm/Retries.antt =====
-- When a completion succeeds, and which exceptions it raises.
use mkc.Prelude.{
  ℕ, zero, suc, ◌+◌, ◌≤◌, ◌<◌, true, Option, some, ◌≡◌, ◌⊎◌, refl, ap, ◌∙◌, arith, Bool-cases,
  Option-cases, inl, inr,
}
use mkc.Exceptions.{Exception, ok, raise, is_api, llm_unavailable, Result-cases}
use mkc.Llm.{Provider, is_retried, give_up, attempts, complete_with_provider, complete}

-- The attempts from `i` on, `n` of them, fail with an error that is tried again.
abbrev pub FailsFrom : {R : Type 0} → Provider R → ℕ → ℕ → Type 0
FailsFrom provider i zero = Unit
FailsFrom provider i (suc n) =
    ((e : Exception) × (provider i ≡ raise e) × (is_retried e ≡ true))
    × FailsFrom provider (suc i) n

-- How many attempts are made
abbrev pub rounds : ℕ → ℕ
rounds zero = 1
rounds (suc retries) = suc retries

zero_plus : (n : ℕ) → 0 + n ≡ n
zero_plus n = omega arith

-- what is tried again is one of the service's own exceptions
retried-api : (e : Exception) → is_retried e ≡ true → is_api e ≡ true
unfolding is_retried is_api
retried-api e h = ground (arith, h)

attempts-success :
    {R : Type 0} (provider : Provider R) (n left i : ℕ) (response : R)
    → n ≤ left
    → FailsFrom provider i n
    → provider (i + n) ≡ ok response
    → attempts provider left i ≡ ok response
unfolding attempts
attempts-success provider zero zero i response h f s =
    let e : i + 0 ≡ i = omega arith in ground (arith, s, ap provider e)
attempts-success provider zero (suc left) i response h f s =
    let e : i + 0 ≡ i = omega arith in ground (arith, s, ap provider e)
attempts-success provider (suc n) zero i response h f s = absurd (omega arith)
attempts-success provider (suc n) (suc left) i response h ((e, q, again), f) s =
    let next : suc i + n ≡ i + suc n = omega arith in
    ground (
      arith,
      q,
      again,
      attempts-success provider n left (suc i) response (omega arith) f (ap provider next ∙ s),
    )

attempts-api :
    {R : Type 0} (provider : Provider R) (left i : ℕ) (e : Exception)
    → attempts provider left i ≡ raise e
    → is_api e ≡ true
unfolding attempts give_up is_api
attempts-api provider zero i e h = elim (Result-cases (provider i)) [
  | inr (response, q) ↦ absurd (ground (arith, h, q))
  | inl (d, q) ↦ elim (Bool-cases (is_api d)) [
    | inl api ↦ let same : e ≡ d = ground (arith, h, q, api) in rw same api
    | inr foreign ↦ let same : e ≡ llm_unavailable = ground (arith, h, q, foreign) in rw same refl
  ]
]
attempts-api provider (suc left) i e h = elim (Result-cases (provider i)) [
  | inr (response, q) ↦ absurd (ground (arith, h, q))
  | inl (d, q) ↦ elim (Bool-cases (is_retried d)) [
    | inl again ↦ attempts-api provider left (suc i) e (ground (arith, h, q, again))
    | inr stops ↦ elim (Bool-cases (is_api d)) [
      | inl api ↦ let same : e ≡ d = ground (arith, h, q, stops, api) in rw same api
      | inr foreign ↦
          let same : e ≡ llm_unavailable = ground (arith, h, q, stops, foreign) in rw same refl
    ]
  ]
]

complete_with_provider-api :
    {R : Type 0} (max_retries : ℕ) (provider : Provider R) (e : Exception)
    → complete_with_provider max_retries provider ≡ raise e
    → is_api e ≡ true
unfolding complete_with_provider
complete_with_provider-api zero provider e h = attempts-api provider zero 0 e h
complete_with_provider-api (suc retries) provider e h = attempts-api provider retries 0 e h

-- A completion raises only exceptions of the service's own, whatever the providers raise.
complete-api :
    {R : Type 0} (max_retries : ℕ) (provider : Provider R) (fallback : Option (Provider R))
    (e : Exception)
    → complete max_retries provider fallback ≡ raise e
    → is_api e ≡ true
unfolding complete
complete-api max_retries provider fallback e h =
    let primary = complete_with_provider max_retries provider in
    elim (Result-cases primary) [
      | inr (response, q) ↦ absurd (ground (arith, h, q))
      | inl (d, q) ↦ elim (Bool-cases (is_retried d)) [
        | inr stops ↦
            complete_with_provider-api max_retries provider e (ground (arith, h, q, stops))
        | inl again ↦ elim (Option-cases fallback) [
          | inl p ↦
              complete_with_provider-api max_retries provider e (ground (arith, h, q, again, p))
          | inr (second, p) ↦
              complete_with_provider-api max_retries second e (ground (arith, h, q, again, p))
        ]
      ]
    ]

attempts-exhausted :
    {R : Type 0} (provider : Provider R) (left i : ℕ)
    → FailsFrom provider i (suc left)
    → (e : Exception) × (attempts provider left i ≡ raise e) × (is_retried e ≡ true)
unfolding attempts give_up is_retried is_api
attempts-exhausted provider zero i ((e, q, again), f) =
    (e, ground (arith, q, again, retried-api e again), again)
attempts-exhausted provider (suc left) i ((e, q, again), f) =
    let (last, h, l) = attempts-exhausted provider left (suc i) f in
    (last, ground (arith, q, again, h), l)

complete_with_provider-exhausted :
    {R : Type 0} (max_retries : ℕ) (provider : Provider R)
    → FailsFrom provider 0 (rounds max_retries)
    → (e : Exception) × (complete_with_provider max_retries provider ≡ raise e)
      × (is_retried e ≡ true)
unfolding complete_with_provider
complete_with_provider-exhausted zero provider f = attempts-exhausted provider zero 0 f
complete_with_provider-exhausted (suc retries) provider f = attempts-exhausted provider retries 0 f

-- The provider answers at an attempt that is made, after failures that are tried again.
abbrev pub Answers : {R : Type 0} → ℕ → Provider R → R → Type 0
Answers max_retries provider response =
    (n : ℕ) × (n < rounds max_retries) × FailsFrom provider 0 n × (provider n ≡ ok response)

complete_with_provider-Answers :
    {R : Type 0} (max_retries : ℕ) (provider : Provider R) (response : R)
    → Answers max_retries provider response
    → complete_with_provider max_retries provider ≡ ok response
unfolding complete_with_provider
complete_with_provider-Answers zero provider response (n, h, f, s) =
    attempts-success provider n zero 0 response (omega (arith, h)) f (ap provider (zero_plus n) ∙ s)
complete_with_provider-Answers (suc retries) provider response (n, h, f, s) =
    attempts-success provider n retries 0 response (omega (arith, h)) f
      (ap provider (zero_plus n) ∙ s)

-- Where the provider answers at an attempt that is made, after failures that are tried again, its
-- answer is that of the completion; and so is that of the fallback provider, where the first one fails
-- in this way at every attempt.
pub complete-Answers :
    {R : Type 0} (max_retries : ℕ) (provider : Provider R) (fallback : Option (Provider R))
    (response : R)
    → Answers max_retries provider response
      ⊎ (FailsFrom provider 0 (rounds max_retries)
          × (second : Provider R) × (fallback ≡ some second)
          × Answers max_retries second response)
    → complete max_retries provider fallback ≡ ok response
unfolding complete
complete-Answers max_retries provider fallback response (inl a) =
    ground (arith, complete_with_provider-Answers max_retries provider response a)
complete-Answers max_retries provider fallback response (inr (fails, second, p, a)) =
    let (e, q, again) = complete_with_provider-exhausted max_retries provider fails in
    let answered = complete_with_provider-Answers max_retries second response a in
    ground (arith, p, q, again, answered)
