-- ===== src/Citation/Scan.antt =====
-- The pieces of an answer are its text, cut at the markers.
use mkc.Prelude.{
  ℕ, zero, suc, ◌+◌, ◌&&◌, Option, some, [], ◌∷◌, ◌++◌, length, length-append, drop, drop-append,
  nat_eqb, nat_eqb_iff, ◌≡◌, refl, ap, sym, ◌∙◌, arith, Bool-cases, Option-cases, List-cases, inl,
  inr,
}
use mkc.Prelude.Text.{Text, codes, nonempty}
use mathlib.Core.List.{append_assoc}
use mkc.Citation.{
  marker_text, pieces_text, read_digits, match_digits, match_marker, scan_from, scan,
}

module _ (digit : ℕ → Option ℕ) where
  read_digits-append : (s : Text) → (read_digits digit s).0 ++ (read_digits digit s).1 ≡ s
  unfolding read_digits
  read_digits-append [] = refl
  read_digits-append (c ∷ s) = elim (Option-cases (digit c)) [
    | inl q ↦ ground (arith, q)
    | inr (d, q) ↦ ground (arith, q, read_digits-append s)
  ]

  match_digits-text :
      (s digits : Text)
      → match_digits digit s ≡ some digits
      → (rest : Text) × (s ≡ digits ++ (b']' ∷ rest))
  unfolding match_digits
  match_digits-text s digits h = elim (List-cases (read_digits digit s).1) [
    | inl q ↦ absurd (ground (arith, h, q))
    | inr (c, rest, q) ↦ elim (Bool-cases (nonempty (read_digits digit s).0 && nat_eqb c b']')) [
      | inr fails ↦ absurd (ground (arith, h, q, fails))
      | inl fits ↦
          let bracket : c ≡ b']' = (nat_eqb_iff c b']').0 (ground (arith, fits)) in
          let read : (read_digits digit s).0 ≡ digits = ground (arith, h, q, fits) in
          (rest, rw (← read, ← bracket, ← q) (sym (read_digits-append s)))
    ]
  ]

  match_marker-text :
      (s digits : Text)
      → match_marker digit s ≡ some digits
      → (rest : Text) × (s ≡ marker_text digits ++ rest)
  unfolding match_marker marker_text
  match_marker-text [] digits h = cc
  match_marker-text (a ∷ []) digits h = cc
  match_marker-text (a ∷ b ∷ s) digits h = elim (Bool-cases (nat_eqb a b'[' && nat_eqb b b'^')) [
    | inr fails ↦ absurd (ground (arith, h, fails))
    | inl fits ↦
        let (rest, e) = match_digits-text s digits (ground (arith, h, fits)) in
        let first : a ≡ b'[' = (nat_eqb_iff a b'[').0 (ground (arith, fits)) in
        let second : b ≡ b'^' = (nat_eqb_iff b b'^').0 (ground (arith, fits)) in
        (rest, ground (arith, first, second, e, append_assoc digits (codes "]") rest))
  ]

  length-marker_text : (digits : Text) → length (marker_text digits) ≡ length digits + 3
  unfolding marker_text
  length-marker_text digits = omega (arith, length-append digits (codes "]"))

  -- what is left behind a marker
  drop-marker_text :
      (c : ℕ) (s digits rest : Text)
      → c ∷ s ≡ marker_text digits ++ rest
      → drop (length digits + 2) s ≡ rest
  drop-marker_text c s digits rest e =
      let n : length (marker_text digits) ≡ suc (length digits + 2) =
        omega (arith, length-marker_text digits) in
      ap (drop (suc (length digits + 2))) e
      ∙ ap (λ k. drop k (marker_text digits ++ rest)) (sym n)
      ∙ drop-append (marker_text digits) rest

  pieces_text-scan_from : (n : ℕ) (s : Text) → pieces_text (scan_from digit n s) ≡ drop n s
  unfolding scan_from pieces_text
  pieces_text-scan_from zero [] = refl
  pieces_text-scan_from (suc n) [] = refl
  pieces_text-scan_from (suc n) (c ∷ s) = pieces_text-scan_from n s
  pieces_text-scan_from zero (c ∷ s) = elim (Option-cases (match_marker digit (c ∷ s))) [
    | inl q ↦ ground (arith, q, pieces_text-scan_from zero s)
    | inr (digits, q) ↦
        let (rest, e) = match_marker-text (c ∷ s) digits q in
        let behind : pieces_text (scan_from digit (length digits + 2) s) ≡ rest =
          pieces_text-scan_from (length digits + 2) s ∙ drop-marker_text c s digits rest e in
        ground (arith, q, behind, e)
  ]

  -- The pieces of a text, one behind the other, are the text.
  pub pieces_text-scan : (s : Text) → pieces_text (scan digit s) ≡ s
  pieces_text-scan s = pieces_text-scan_from 0 s
