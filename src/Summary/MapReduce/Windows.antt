-- ===== src/Summary/MapReduce/Windows.antt =====
-- The windows of tokens hold the whole text.
use mkc.Prelude.{
  ℕ, zero, suc, ◌≤◌, ◌<◌, List, [], ◌∷◌, ◌++◌, map, length, take, drop, length-take, length-drop,
  take-append-drop, take_of_length-le, leb, All, ◌≡◌, refl, ap, ◌∙◌, ◌⊎◌, arith, Bool-cases, inl,
  inr,
}
use mkc.Prelude.Text.{Text}
use mkc.Chunking.{Estimator, encode, decode, ℤ, pos, negsuc}
use mkc.Summary.Sections.{get_or}
use mkc.Summary.MapReduce.{
  MapReduceConfig, step_of, token_windows, split_within, split_limited, split_chunks,
}

-- Windows without what they share with the next one
abbrev pub glue : ℕ → List (List ℕ) → List ℕ
glue step [] = []
glue step (w ∷ []) = w
glue step (w ∷ v ∷ ws) = take step w ++ glue step (v ∷ ws)

abbrev pub IsWindow : ℕ → List ℕ → Type 0
IsWindow limit w = (1 ≤ length w) × (length w ≤ limit)

-- Windows of at most `limit` tokens, none of them empty, that give the tokens where each is cut to its
-- first `step`, but the last one
abbrev pub Covers : ℕ → ℕ → List ℕ → List (List ℕ) → Type 0
Covers limit step tokens ws = (glue step ws ≡ tokens) × All (IsWindow limit) ws

step_of_bounds :
    (limit : ℕ) (overlap : ℤ)
    → 1 ≤ limit
    → (1 ≤ step_of limit overlap) × (step_of limit overlap ≤ limit)
unfolding step_of
step_of_bounds limit (pos overlap) h = (omega arith, omega arith)
step_of_bounds limit (negsuc n) h = (omega arith, omega arith)

take-take : (m n : ℕ) (xs : List ℕ) → m ≤ n → take m (take n xs) ≡ take m xs
take-take zero n xs h = refl
take-take (suc m) zero xs h = absurd (omega arith)
take-take (suc m) (suc n) [] h = refl
take-take (suc m) (suc n) (x ∷ xs) h = ap (◌∷◌ x) (take-take m n xs (omega arith))

glue-cons :
    (step : ℕ) (w : List ℕ) (ws : List (List ℕ))
    → 1 ≤ length ws
    → glue step (w ∷ ws) ≡ take step w ++ glue step ws
glue-cons step w [] h = absurd (omega arith)
glue-cons step w (v ∷ ws) h = refl

token_windows_pos :
    (fuel limit step : ℕ) (tokens : List ℕ)
    → 1 ≤ fuel
    → 1 ≤ length (token_windows fuel limit step tokens)
unfolding token_windows
token_windows_pos zero limit step tokens h = absurd (omega arith)
token_windows_pos (suc fuel) limit step tokens h = ground arith

token_windows-Covers :
    (fuel limit step : ℕ) (tokens : List ℕ)
    → 1 ≤ step
    → step ≤ limit
    → 1 ≤ length tokens
    → length tokens ≤ fuel
    → Covers limit step tokens (token_windows fuel limit step tokens)
unfolding token_windows
token_windows-Covers zero limit step tokens s l n f = absurd (omega arith)
token_windows-Covers (suc fuel) limit step tokens s l n f =
    let size = length-take limit tokens in
    elim (Bool-cases (leb (length tokens) limit)) [
      | inl e ↦ rw e (
        take_of_length-le limit tokens (ground arith),
        ((omega (arith, size), omega (arith, size)), tt),
      )
      | inr e ↦
          let behind = length-drop step tokens in
          let long : limit < length tokens = ground arith in
          let (same, windows) =
            token_windows-Covers fuel limit step (drop step tokens) s l (omega (arith, behind))
              (omega (arith, behind)) in
          rw e (
            glue-cons step (take limit tokens) (token_windows fuel limit step (drop step tokens))
                  (token_windows_pos fuel limit step (drop step tokens) (omega arith))
                ∙ ap (λ ts. ts ++ glue step (token_windows fuel limit step (drop step tokens)))
                    (take-take step limit tokens l)
                ∙ ap (◌++◌ (take step tokens)) same
                ∙ take-append-drop step tokens,
            ((omega (arith, size), omega (arith, size)), windows),
          )
    ]

-- The text is one chunk, where its tokens are within the limit or there is none; else the chunks are the
-- windows of its tokens, decoded.
abbrev pub IsSplit : Estimator → ℤ → ℤ → Text → List Text → Type 0
IsSplit estimator limit overlap text chunks =
    ((chunks ≡ text ∷ [])
      × ((n : ℕ) → limit ≡ pos (suc n) → length (encode estimator text) ≤ suc n))
    ⊎ ((n : ℕ) × (ws : List (List ℕ)) × (limit ≡ pos (suc n))
        × (suc n < length (encode estimator text))
        × (chunks ≡ map (decode estimator) ws)
        × Covers (suc n) (step_of (suc n) overlap) (encode estimator text) ws)

split_within-IsSplit :
    (estimator : Estimator) (n : ℕ) (overlap : ℤ) (text : Text)
    → IsSplit estimator (pos (suc n)) overlap text (split_within estimator (suc n) overlap text)
unfolding split_within
split_within-IsSplit estimator n overlap text =
    let tokens = encode estimator text in
    let (low, high) = step_of_bounds (suc n) overlap (omega arith) in
    elim (Bool-cases (leb (length tokens) (suc n))) [
      | inl e ↦ rw e (inl (refl, λ m same. ground (arith, same, e)))
      | inr e ↦ rw e (
          inr (
            n,
            token_windows (length tokens) (suc n) (step_of (suc n) overlap) tokens,
            refl,
            ground arith,
            refl,
            token_windows-Covers (length tokens) (suc n) (step_of (suc n) overlap) tokens low high
                (ground arith) (omega arith),
          ))
    ]

split_limited-IsSplit :
    (estimator : Estimator) (limit overlap : ℤ) (text : Text)
    → IsSplit estimator limit overlap text (split_limited estimator limit overlap text)
unfolding split_limited
split_limited-IsSplit estimator (pos (suc n)) overlap text =
    split_within-IsSplit estimator n overlap text
split_limited-IsSplit estimator (pos zero) overlap text =
    inl (refl, λ n same. absurd (ground (arith, same)))
split_limited-IsSplit estimator (negsuc m) overlap text =
    inl (refl, λ n same. absurd (ground (arith, same)))

-- Where the limit is positive and a text has more tokens, its chunks are decoded from windows of at most
-- that many tokens, none of them empty, which hold all tokens in their order: each window up to where
-- the next one begins, and the whole last one. Else the text is the one chunk.
pub split_chunks-IsSplit :
    (estimator : Estimator) (config : MapReduceConfig) (text : Text)
    → IsSplit estimator
        (get_or config.chunk_token_limit (pos 3000))
        (get_or config.overlap_tokens (pos 100))
        text
        (split_chunks estimator config text)
unfolding split_chunks
split_chunks-IsSplit estimator config text =
    split_limited-IsSplit estimator (get_or config.chunk_token_limit (pos 3000))
      (get_or config.overlap_tokens (pos 100)) text
