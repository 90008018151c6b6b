-- ===== src/Chunking/Split.antt =====
-- `str.split(sep)` for a separator that is not empty, and the law that its parts join to the text.
use mkc.Prelude.{
  ℕ, zero, suc, ◌-◌, ◌≤◌, Bool, true, false, ◌&&◌, List, [], ◌∷◌, ◌++◌, length, drop, nat_eqb,
  if◌then◌else◌, ◌≡◌, refl, ap, ◌∙◌, arith, Bool-cases, inl, inr, sym,
}
use mathlib.Core.List.{append_assoc, append-nil}
use mkc.Prelude.Text.{Text, join}

-- `text.startswith(prefix)`
unfoldable pub starts_with : Text → Text → Bool
starts_with [] text = true
starts_with (p ∷ ps) [] = false
starts_with (p ∷ ps) (c ∷ cs) = nat_eqb p c && starts_with ps cs

pub drop_of_starts_with :
    (sep text : Text) → starts_with sep text ≡ true → sep ++ drop (length sep) text ≡ text
unfolding starts_with
drop_of_starts_with [] text h = refl
drop_of_starts_with (p ∷ ps) [] h = cc
drop_of_starts_with (p ∷ ps) (c ∷ cs) h = ground (arith, drop_of_starts_with ps cs)

-- `current` is the part that is being read, and `skip` counts the characters of a separator found
-- that are still to be passed over.
unfoldable pub split_from : Text → ℕ → Text → Text → List Text
unfolding starts_with
split_from sep skip current [] = current ∷ []
split_from sep (suc k) current (c ∷ cs) = split_from sep k current cs
split_from sep zero current (c ∷ cs) =
    let part = current ∷ split_from sep (length sep - 1) [] cs in
    let on = split_from sep zero (current ++ (c ∷ [])) cs in
    if starts_with sep (c ∷ cs) then part else on

unfoldable pub split : Text → Text → List Text
unfolding split_from
split text sep = split_from sep 0 [] text

split_from-cons :
    (sep : Text) (skip : ℕ) (current text : Text)
    → (h : Text) × (t : List Text) × (split_from sep skip current text ≡ h ∷ t)
unfolding split_from
split_from-cons sep skip current [] = (current, [], refl)
split_from-cons sep (suc k) current (c ∷ cs) = split_from-cons sep k current cs
split_from-cons sep zero current (c ∷ cs) = elim (Bool-cases (starts_with sep (c ∷ cs))) [
  | inl e ↦ (current, split_from sep (length sep - 1) [] cs, rw e)
  | inr e ↦ rw e (split_from-cons sep zero (current ++ (c ∷ [])) cs)
]

-- in front of a part that follows stands the separator
join-cons_cons :
    (sep part : Text) (parts : List Text) {h : Text} {t : List Text}
    → parts ≡ h ∷ t
    → join sep (part ∷ parts) ≡ part ++ (sep ++ join sep parts)
unfolding join
join-cons_cons sep part parts e = rw e

join-split_from :
    (s : ℕ) (sep : Text) (skip : ℕ) (current text : Text)
    → join (s ∷ sep) (split_from (s ∷ sep) skip current text) ≡ current ++ drop skip text
unfolding split_from join
join-split_from s sep zero current [] = sym (append-nil current)
join-split_from s sep (suc k) current [] = sym (append-nil current)
join-split_from s sep (suc k) current (c ∷ cs) = join-split_from s sep k current cs
join-split_from s sep zero current (c ∷ cs) = elim (Bool-cases (starts_with (s ∷ sep) (c ∷ cs))) [
  | inl e ↦
      let (h, t, shape) = split_from-cons (s ∷ sep) (suc (length sep) - 1) [] cs in
      let skipped : suc (length sep) - 1 ≡ length sep = omega arith in
      rw e (
        join-cons_cons (s ∷ sep) current _ shape
        ∙ ap (λ r. current ++ (s ∷ sep ++ r))
            (rw skipped (join-split_from s sep (length sep) [] cs))
        ∙ ap (◌++◌ current) (drop_of_starts_with (s ∷ sep) (c ∷ cs) e))
  | inr e ↦
      rw e (join-split_from s sep zero (current ++ (c ∷ [])) cs ∙ append_assoc current (c ∷ []) cs)
]

-- joining the parts of a text with their separator gives the text back
pub join-split : (sep text : Text) → 1 ≤ length sep → join sep (split text sep) ≡ text
unfolding split
join-split [] text h = absurd (omega arith)
join-split (s ∷ sep) text h = join-split_from s sep 0 [] text

-- a text has at least one part
pub split-cons : (sep text : Text) → (h : Text) × (t : List Text) × (split text sep ≡ h ∷ t)
unfolding split
split-cons sep text = split_from-cons sep 0 [] text
