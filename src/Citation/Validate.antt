-- ===== src/Citation/Validate.antt =====
-- Which citations the validation lets through.
use mkc.Exceptions.{Result-cases}
use mkc.Models.{RetrievalChunk}
use mkc.Prelude.{
  Option, All, All-take, All_of_keep_if, ℕ, suc, ◌-◌, max, Bool, true, ◌&&◌, not, List, [], ◌∷◌,
  take, keep_if, leb, ◌≡◌, refl, ap, ◌∙◌, arith, Bool-cases, inl, inr,
}
use mkc.Prelude.Text.{Text, text_in, nonempty}
use mkc.Citation.{Citation, validate_from, format, build_citations}

-- `citation.resource_id` is authorized; no list authorizes everything.
abbrev pub is_authorized : {F : Type 0} → List Text → Citation F → Bool
is_authorized authorized c = not (nonempty authorized && not (text_in c.resource_id authorized))

validate_from-take :
    {F : Type 0} (m : ℕ) (authorized : List Text) (count : ℕ) (cs : List (Citation F))
    → validate_from m authorized count cs
      ≡ take (max 1 (m - count)) (keep_if (is_authorized authorized) cs)
unfolding validate_from keep_if
validate_from-take m authorized count [] =
    let one : max 1 (m - count) ≡ suc (max 1 (m - count) - 1) = omega arith in rw one refl
validate_from-take m authorized count (c ∷ cs) =
    elim (Bool-cases (nonempty authorized && not (text_in c.resource_id authorized))) [
      | inl out ↦ rw out (validate_from-take m authorized count cs)
      | inr inside ↦ elim (Bool-cases (leb m (suc count))) [
        | inl full ↦
            let one : max 1 (m - count) ≡ 1 = ground (arith, full) in rw (inside, full, one) refl
        | inr room ↦
            let more : max 1 (m - count) ≡ suc (max 1 (m - suc count)) = ground (arith, room) in
            rw (inside, room, more) (ap (◌∷◌ c) (validate_from-take m authorized (suc count) cs))
      ]
    ]

-- The validation lets the first authorized citations through, in their order, as many as are allowed,
-- but one if none is allowed.
validate-take :
    {F : Type 0} (max_citations : ℕ) (authorized : List Text) (cs : List (Citation F))
    → validate_from max_citations authorized 0 cs
      ≡ take (max 1 max_citations) (keep_if (is_authorized authorized) cs)
validate-take max_citations authorized cs =
    let all : max_citations - 0 ≡ max_citations = omega arith in
    validate_from-take max_citations authorized 0 cs
    ∙ ap (λ n. take (max 1 n) (keep_if (is_authorized authorized) cs)) all

-- where resources are authorized, the citations of an answer are of these
pub build_citations-authorized :
    {F V : Type 0} (digit : ℕ → Option ℕ) (max_chars max_citations : ℕ) (answer : Text)
    (chunks : List (RetrievalChunk F V)) (authorized : List Text)
    → nonempty authorized ≡ true
    → All
        (λ c. text_in c.resource_id authorized ≡ true)
        (build_citations digit max_chars max_citations answer chunks authorized).citations
unfolding build_citations
build_citations-authorized digit max_chars max_citations answer chunks authorized given =
    elim (Result-cases (format digit max_chars answer chunks)) [
      | inl (e, q) ↦ rw (build_citations, q) tt
      | inr (formatted, q) ↦
          rw (build_citations, q, validate-take max_citations authorized formatted.citations)
            (All-take _ (max 1 max_citations) _ (
              All_of_keep_if _ (is_authorized authorized) (λ c h. ground (arith, h, given))
                formatted.citations))
    ]
