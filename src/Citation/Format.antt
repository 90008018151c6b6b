-- ===== src/Citation/Format.antt =====
-- What the formatter makes of an answer: numbered citations, and markers that name them.
use mkc.Prelude.{
  ℕ, zero, suc, ◌+◌, ◌-◌, ◌≤◌, ◌<◌, ◌||◌, Option, some, List, [], ◌∷◌, ◌++◌, map, length, get_elem?,
  ltb, nat_eqb, nat_eqb_iff, All, All-imp, All-append, ◌⊎◌, ◌≡◌, refl, ap, sym, ◌∙◌, arith,
  Bool-cases, Option-cases, inl, inr,
}
use mkc.Prelude.Text.{Text}
use mkc.Prelude.Decimal.{decimal}
use mkc.Exceptions.{ok, ◌>>=◌, >>=-eq-ok}
use mkc.Models.{RetrievalChunk}
use mkc.Citation.{
  Citation, CitationResult, Piece, char, marker, marker_text, pieces_text, markers, find,
  citation_from_chunk, State, scan, value_from, read_int, add_citation, number_markers, renumber,
  renumber_answer, format,
}
use mkc.Citation.Scan.{pieces_text-scan}

-- The citations are numbered one after the other, from `n` on.
abbrev pub Numbered : {F : Type 0} → ℕ → List (Citation F) → Type 0
Numbered n [] = Unit
Numbered n (c ∷ cs) = (c.index ≡ n) × Numbered (suc n) cs

Numbered-append :
    {F : Type 0} (n : ℕ) (cs : List (Citation F)) (c : Citation F)
    → Numbered n cs
    → c.index ≡ n + length cs
    → Numbered n (cs ++ (c ∷ []))
Numbered-append n [] c h e = (omega (arith, e), tt)
Numbered-append n (d ∷ cs) c h e = (h.0, Numbered-append (suc n) cs c h.1 (omega (arith, e)))

get_elem?-front :
    {A : Type 0} (xs ys : List A) (i : ℕ) (x : A)
    → get_elem? xs i ≡ some x
    → get_elem? (xs ++ ys) i ≡ some x
get_elem?-front [] ys i x h = cc
get_elem?-front (y ∷ xs) ys zero x h = h
get_elem?-front (y ∷ xs) ys (suc i) x h = get_elem?-front xs ys i x h

get_elem?-last :
    {A : Type 0} (xs : List A) (x : A) → get_elem? (xs ++ (x ∷ [])) (length xs) ≡ some x
get_elem?-last [] x = refl
get_elem?-last (y ∷ xs) x = get_elem?-last xs x

module _ {F V : Type 0} (max_chars : ℕ) (chunks : List (RetrievalChunk F V)) where
  -- The entry `(index, r)` of the table: citation `r` is that of chunk `index`.
  abbrev pub Cites : List (Citation F) → ℕ → ℕ → Type 0
  Cites cs index r =
      (1 ≤ index)
      × (1 ≤ r)
      × (chunk : RetrievalChunk F V) × (get_elem? chunks (index - 1) ≡ some chunk)
      × (get_elem? cs (r - 1) ≡ some (citation_from_chunk max_chars r index chunk))

  -- The citation of one of the chunks
  abbrev pub OfChunk : Citation F → Type 0
  OfChunk c =
      (index : ℕ) × (chunk : RetrievalChunk F V) × (get_elem? chunks index ≡ some chunk)
      × (c ≡ citation_from_chunk max_chars c.index (index + 1) chunk)

  abbrev IsState : State F → Type 0
  IsState st =
      Numbered 1 st.citations
      × All OfChunk st.citations
      × All (λ item. Cites st.citations item.0 item.1) st.table

  -- A number that the table has, or that is no chunk's.
  abbrev Known : List (ℕ × ℕ) → ℕ → Type 0
  Known table index =
      ((r : ℕ) × (find index table ≡ some r)) ⊎ ((index < 1) ⊎ (length chunks < index))

  Known-cons :
      (table : List (ℕ × ℕ)) (item : ℕ × ℕ) (index : ℕ)
      → Known table index
      → Known (item ∷ table) index
  unfolding find
  Known-cons table item index known = elim (Bool-cases (nat_eqb index item.0)) [
    | inl e ↦ inl (item.1, rw e refl)
    | inr e ↦ elim known [ inl (r, q) ↦ inl (r, rw e q) | inr out ↦ inr out ]
  ]

  find-All :
      (P : ℕ × ℕ → Type 0) (table : List (ℕ × ℕ)) (index r : ℕ)
      → find index table ≡ some r
      → All P table
      → P (index, r)
  unfolding find
  find-All P [] index r h all = cc
  find-All P ((m, k) ∷ table) index r h all = elim (Bool-cases (nat_eqb index m)) [
    | inl e ↦
        let same : index ≡ m = (nat_eqb_iff index m).0 e in
        let number : k ≡ r = ground (arith, h, e) in rw (same, ← number) all.0
    | inr e ↦ find-All P table index r (ground (arith, h, e)) all.1
  ]

  -- The state with the citation of a chunk that had none.
  abbrev extended : State F → ℕ → RetrievalChunk F V → State F
  extended st index chunk =
      let number = length st.citations + 1 in
      record {
        citations = st.citations ++ (citation_from_chunk max_chars number index chunk ∷ []);
        table = (index, number) ∷ st.table;
      }

  extended-IsState :
      (st : State F) (index : ℕ) (chunk : RetrievalChunk F V)
      → 1 ≤ index
      → get_elem? chunks (index - 1) ≡ some chunk
      → IsState st
      → IsState (extended st index chunk)
  unfolding citation_from_chunk
  extended-IsState st index chunk pos found (numbered, of_chunk, cites) =
      let number = length st.citations + 1 in
      let new = citation_from_chunk max_chars number index chunk in
      let last : List (Citation F) = new ∷ [] in
      let before : index - 1 + 1 ≡ index = omega arith in
      let place : number - 1 ≡ length st.citations = omega arith in
      (
        Numbered-append 1 st.citations new numbered (omega arith),
        All-append OfChunk st.citations last of_chunk
            ((index - 1, chunk, found, rw before refl), tt),
        (
          (pos, omega arith, chunk, found, rw place (get_elem?-last st.citations new)),
          All-imp
              (λ item (one, pos_r, c, q, e).
                (one, pos_r, c, q, get_elem?-front st.citations last (item.1 - 1) _ e))
              st.table cites,
        ),
      )

  module _ (digit : ℕ → Option ℕ) where
    add_citation-eq :
        (index : ℕ) (st st' : State F)
        → add_citation digit max_chars chunks index st ≡ ok st'
        → ((st' ≡ st) × Known st.table index)
          ⊎ ((chunk : RetrievalChunk F V) × (1 ≤ index)
              × (get_elem? chunks (index - 1) ≡ some chunk)
              × (st' ≡ extended st index chunk))
    unfolding add_citation
    add_citation-eq index st st' h = elim (Option-cases (find index st.table)) [
      | inr (r, q) ↦ inl (ground (arith, h, q), inl (r, q))
      | inl q ↦ elim (Bool-cases (ltb index 1 || ltb (length chunks) index)) [
        | inl out ↦ inl (ground (arith, h, q, out), inr (ground (arith, out)))
        | inr inside ↦ elim (Option-cases (get_elem? chunks (index - 1))) [
          | inl p ↦ absurd (ground (arith, h, q, inside, p))
          | inr (chunk, p) ↦ inr (chunk, ground (arith, inside), p, ground (arith, h, q, inside, p))
        ]
      ]
    ]

    add_citation-keeps :
        (index : ℕ) (st st' : State F)
        → add_citation digit max_chars chunks index st ≡ ok st'
        → IsState st
        → IsState st' × Known st'.table index
    unfolding find
    add_citation-keeps index st st' h is = elim (add_citation-eq index st st' h) [
      | inl (e, known) ↦ rw e (is, known)
      | inr (chunk, pos, found, e) ↦ rw e (
        extended-IsState st index chunk pos found is,
        inl (length st.citations + 1, ground (arith, nat_eqb_iff index index)),
      )
    ]

    add_citation-Known :
        (index n : ℕ) (st st' : State F)
        → add_citation digit max_chars chunks index st ≡ ok st'
        → Known st.table n
        → Known st'.table n
    add_citation-Known index n st st' h known = elim (add_citation-eq index st st' h) [
      | inl (e, _) ↦ rw e known
      | inr (chunk, pos, found, e) ↦
          rw e (Known-cons st.table (index, length st.citations + 1) n known)
    ]

    read_int-value :
        (digits : Text) (index : ℕ)
        → read_int digit digits ≡ ok index
        → index ≡ value_from digit 0 digits
    unfolding read_int
    read_int-value digits index h = elim (Bool-cases (ltb 4300 (length digits))) [
      | inl long ↦ absurd (ground (arith, h, long))
      | inr short ↦ ground (arith, h, short)
    ]

    number_markers-keeps :
        (digits_list : List Text) (st st' : State F)
        → number_markers digit max_chars chunks digits_list st ≡ ok st'
        → IsState st
        → IsState st'
          × All (λ digits. Known st'.table (value_from digit 0 digits)) digits_list
          × ((n : ℕ) → Known st.table n → Known st'.table n)
    unfolding number_markers
    number_markers-keeps [] st st' h is =
        let e : st' ≡ st = ground (arith, h) in rw e (is, tt, λ n known. known)
    number_markers-keeps (digits ∷ rest) st st' h is =
        let (index, read, added) =
          >>=-eq-ok (read_int digit digits)
            (λ index.
              add_citation digit max_chars chunks index st
              >>= number_markers digit max_chars chunks rest)
            {out = st'} h in
        let (mid, first, others) =
          >>=-eq-ok (add_citation digit max_chars chunks index st)
            (number_markers digit max_chars chunks rest) {out = st'} added in
        let value : index ≡ value_from digit 0 digits = read_int-value digits index read in
        let (is_mid, known) = add_citation-keeps index st mid first is in
        let (is_end, known_rest, keeps) = number_markers-keeps rest mid st' others is_mid in
        (
          is_end,
          (rw (← value) (keeps index known), known_rest),
          λ n k. keeps n (add_citation-Known index n st mid first k),
        )

    renumber_nothing :
        (pieces : List Piece) → pieces_text (map (renumber digit []) pieces) ≡ pieces_text pieces
    unfolding renumber pieces_text find
    renumber_nothing [] = refl
    renumber_nothing (char c ∷ pieces) = ap (◌∷◌ c) (renumber_nothing pieces)
    renumber_nothing (marker digits ∷ pieces) =
        ap (λ s. marker_text digits ++ s) (renumber_nothing pieces)

    renumber_answer-pieces :
        (answer : Text) (table : List (ℕ × ℕ))
        → renumber_answer digit answer table
          ≡ pieces_text (map (renumber digit table) (scan digit answer))
    unfolding renumber_answer
    renumber_answer-pieces answer [] =
        sym (renumber_nothing (scan digit answer) ∙ pieces_text-scan digit answer)
    renumber_answer-pieces answer (item ∷ table) = refl

    -- What becomes of a marker: it names the citation of its chunk, or is left, where there is no
    -- such chunk.
    abbrev pub IsRenumbered : CitationResult F → List (ℕ × ℕ) → Text → Type 0
    IsRenumbered r table digits =
        let index = value_from digit 0 digits in
        ((n : ℕ) × (renumber digit table (marker digits) ≡ marker (decimal n))
          × Cites r.citations index n)
        ⊎ ((renumber digit table (marker digits) ≡ marker digits)
            × ((index < 1) ⊎ (length chunks < index)))

    Known-IsRenumbered :
        (r : CitationResult F) (table : List (ℕ × ℕ)) (digits : Text)
        → All (λ item. Cites r.citations item.0 item.1) table
        → Known table (value_from digit 0 digits)
        → IsRenumbered r table digits
    unfolding renumber
    Known-IsRenumbered r table digits cites known =
        let index = value_from digit 0 digits in
        elim (Option-cases (find index table)) [
          | inr (n, q) ↦ inl (
            n,
            ground (arith, q),
            find-All (λ item. Cites r.citations item.0 item.1) table index n q cites,
          )
          | inl q ↦ elim known [
            | inl (n, p) ↦ absurd (ground (arith, p, q))
            | inr out ↦ inr (ground (arith, q), out)
          ]
        ]

    -- The citations are numbered from 1 on, each is that of a chunk, and the answer is the original
    -- one, in which each marker with the number of a chunk names the citation of this chunk, and every
    -- other marker and all text is as it was.
    pub format-IsRenumbered :
        (answer : Text) (r : CitationResult F)
        → format digit max_chars answer chunks ≡ ok r
        → Numbered 1 r.citations
          × All OfChunk r.citations
          × (table : List (ℕ × ℕ)) × (r.answer
              ≡ pieces_text (map (renumber digit table) (scan digit answer)))
          × All (IsRenumbered r table) (markers (scan digit answer))
    unfolding format
    format-IsRenumbered answer r h =
        let start : State F = record { citations = []; table = [] } in
        let (st, numbered_all, built) =
          >>=-eq-ok (number_markers digit max_chars chunks (markers (scan digit answer)) start)
            (λ st.
              ok (record {
                answer = renumber_answer digit answer st.table;
                citations = st.citations;
              }))
            {out = r} h in
        let ((numbered, of_chunk, cites), known, _) =
          number_markers-keeps (markers (scan digit answer)) start st numbered_all (tt, tt, tt) in
        let same : r.citations ≡ st.citations = ground (arith, built) in
        let text : r.answer ≡ renumber_answer digit answer st.table = ground (arith, built) in
        (
          rw same numbered,
          rw same of_chunk,
          st.table,
          text ∙ renumber_answer-pieces answer st.table,
          All-imp (λ digits k. Known-IsRenumbered r st.table digits (rw same cites) k)
              (markers (scan digit answer)) known,
        )
