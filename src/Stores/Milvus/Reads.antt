-- ===== src/Stores/Milvus/Reads.antt =====
-- The expressions of different filters are different: each can be read back as the condition that it was
-- made of. The reader is a means of the proof; Milvus reads quotes and backslashes in its own way.
use mkc.Prelude.{
  ℕ, zero, suc, Bool, true, ◌&&◌, Option, none, some, List, [], ◌∷◌, ◌++◌, if◌then◌else◌, ◌≡◌, refl,
  ap, sym, subst, ◌∙◌, arith, length,
}
use mathlib.Core.List.{append-nil}
use mkc.Prelude.Text.{Text, codes, text_eqb, text_in, nonempty, join}
use mkc.Stores.{Scope, one, many, StoreFilters, scope_of, in_scope, of_user, selects}
use mkc.Stores.Milvus.{
  escape_expr, quoted, resource_id_filter, user_clause, search_filter, resource_filter,
}
use mkc.Stores.Milvus.Literals.{
  Atom, resource_in, user_is, strip_prefix, NoQuote, read_atom, read_atom-resource, read_atom-user,
  read_atom-resources,
}

-- An atom in front of what an expression gives
abbrev pub atom_in_front : Atom → Option (List Atom) → Option (List Atom)
atom_in_front atom none = none
atom_in_front atom (some atoms) = some (atom ∷ atoms)

-- What follows a condition: the end, or a condition more
abbrev pub after_atom : (Text → Option (List Atom)) → Option (Atom × Text) → Option (List Atom)
after_atom read_more none = none
after_atom read_more (some (atom, [])) = some (atom ∷ [])
after_atom read_more (some (atom, c ∷ rest)) = elim (strip_prefix (codes " && ") (c ∷ rest)) [
  | none ↦ none
  | some clauses ↦ atom_in_front atom (read_more clauses)
]

unfoldable pub read_clauses : ℕ → Text → Option (List Atom)
read_clauses zero s = none
read_clauses (suc n) s = after_atom (read_clauses n) (read_atom s)

-- An expression, where the empty one is no condition
unfoldable pub read_filter : Text → Option (List Atom)
read_filter s = if nonempty s then read_clauses (suc (suc (length s))) s else some []

abbrev pub holds : Atom → Text → Text → Bool
holds (resource_in ids) resource_id user_id = text_in resource_id ids
holds (user_is u) resource_id user_id = text_eqb user_id u

abbrev pub accepts : List Atom → Text → Text → Bool
accepts [] resource_id user_id = true
accepts (atom ∷ atoms) resource_id user_id =
    holds atom resource_id user_id && accepts atoms resource_id user_id

abbrev scope_atom : Scope → Atom
scope_atom (one r) = resource_in (r ∷ [])
scope_atom (many []) = resource_in ([] ∷ [])
scope_atom (many (r ∷ ids)) = resource_in (r ∷ ids)

read_atom-scope_atom :
    (scope : Scope) (rest : Text)
    → NoQuote rest
    → read_atom (resource_id_filter (some scope) ++ rest) ≡ some (scope_atom scope, rest)
unfolding resource_id_filter quoted escape_expr
read_atom-scope_atom (one r) rest h = read_atom-resource r rest h
read_atom-scope_atom (many []) rest h = read_atom-resource [] rest h
read_atom-scope_atom (many (r ∷ [])) rest h = read_atom-resource r rest h
read_atom-scope_atom (many (r ∷ s ∷ ids)) rest h = read_atom-resources r s ids rest

nonempty-scope : (scope : Scope) → nonempty (resource_id_filter (some scope)) ≡ true
unfolding resource_id_filter
nonempty-scope (one r) = refl
nonempty-scope (many []) = refl
nonempty-scope (many (r ∷ [])) = refl
nonempty-scope (many (r ∷ s ∷ ids)) = refl

holds-scope_atom :
    (scope : Scope) (resource_id user_id : Text)
    → holds (scope_atom scope) resource_id user_id ≡ in_scope (some scope) resource_id
unfolding text_in
holds-scope_atom (one r) resource_id user_id = ground arith
holds-scope_atom (many []) resource_id user_id = ground arith
holds-scope_atom (many (r ∷ ids)) resource_id user_id = refl

-- A text that reads as an atom, whatever follows
abbrev ReadsAs : Text → Atom → Type 0
ReadsAs t atom = (rest : Text) → NoQuote rest → read_atom (t ++ rest) ≡ some (atom, rest)

read_clauses_last :
    (n : ℕ) (t : Text) (atom : Atom) → ReadsAs t atom → read_clauses (suc n) t ≡ some (atom ∷ [])
unfolding read_clauses
read_clauses_last n t atom h =
    ap (after_atom (read_clauses n))
      (subst (λ x. read_atom x ≡ some (atom, [])) (append-nil t) (h [] tt))

read_filter_one :
    (t : Text) (atom : Atom) → nonempty t ≡ true → ReadsAs t atom → read_filter t ≡ some (atom ∷ [])
unfolding read_filter
read_filter_one t atom given h = rw given (read_clauses_last (suc (length t)) t atom h)

nonempty-append : (s t : Text) → nonempty s ≡ true → nonempty (s ++ t) ≡ true
nonempty-append [] t h = cc
nonempty-append (c ∷ s) t h = refl

read_filter_two :
    (s t : Text) (first second : Atom)
    → nonempty s ≡ true
    → ReadsAs s first
    → ReadsAs t second
    → read_filter (s ++ (codes " && " ++ t)) ≡ some (first ∷ second ∷ [])
unfolding read_filter read_clauses
read_filter_two s t first second given h k =
    let whole = s ++ (codes " && " ++ t) in
    rw (nonempty-append s (codes " && " ++ t) given) (
      ap (after_atom (read_clauses (suc (length whole)))) (h (codes " && " ++ t) refl)
      ∙ ap (atom_in_front first) (read_clauses_last (length whole) t second k))

abbrev atoms_of : Option Scope → Option Text → List Atom
atoms_of none none = []
atoms_of none (some u) = user_is u ∷ []
atoms_of (some scope) none = scope_atom scope ∷ []
atoms_of (some scope) (some u) = scope_atom scope ∷ user_is u ∷ []

-- What `_search_filter` makes of the two conditions
abbrev combined : Option Scope → Option Text → Text
combined scope user_id =
    let resource_filter = resource_id_filter scope in
    let clauses : List Text = if nonempty resource_filter then resource_filter ∷ [] else [] in
    join (codes " && ") (clauses ++ user_clause user_id)

read_filter-combined :
    (scope : Option Scope) (user_id : Option Text)
    → read_filter (combined scope user_id) ≡ some (atoms_of scope user_id)
unfolding user_clause join resource_id_filter read_filter
read_filter-combined none none = refl
read_filter-combined none (some u) =
    read_filter_one (codes "user_id == " ++ quoted u) (user_is u) refl (read_atom-user u)
read_filter-combined (some scope) none = rw (nonempty-scope scope) (
    read_filter_one (resource_id_filter (some scope)) (scope_atom scope) (nonempty-scope scope)
      (read_atom-scope_atom scope))
read_filter-combined (some scope) (some u) = rw (nonempty-scope scope) (
    read_filter_two (resource_id_filter (some scope)) (codes "user_id == " ++ quoted u)
      (scope_atom scope) (user_is u) (nonempty-scope scope) (read_atom-scope_atom scope)
      (read_atom-user u))

accepts-selects :
    (scope : Option Scope) (user_id : Option Text) (r u : Text)
    → accepts (atoms_of scope user_id) r u ≡ (in_scope scope r && of_user user_id u)
accepts-selects none none r u = refl
accepts-selects none (some v) r u = ground arith
accepts-selects (some scope) none r u = rw (holds-scope_atom scope r u) refl
accepts-selects (some scope) (some v) r u = rw (holds-scope_atom scope r u) (ground arith)

-- The expression can be read as one that selects these rows.
abbrev pub ReadsFor : Text → (Text → Text → Bool) → Type 0
ReadsFor expr selected =
    (atoms : List Atom) × (read_filter expr ≡ some atoms)
    × ((resource_id user_id : Text)
        → accepts atoms resource_id user_id ≡ selected resource_id user_id)

-- The rows of a deletion: those of the resource, and of the user where one is given that is not empty
abbrev pub is_deleted : Text → Option Text → Text → Text → Bool
is_deleted r none resource_id user_id = text_eqb resource_id r
is_deleted r (some []) resource_id user_id = text_eqb resource_id r
is_deleted r (some (c ∷ u)) resource_id user_id = text_eqb resource_id r && text_eqb user_id (c ∷ u)

search_filter-ReadsFor :
    (filters : StoreFilters) → ReadsFor (search_filter filters) (selects filters)
unfolding search_filter
search_filter-ReadsFor filters = (
  atoms_of (scope_of filters) filters.user_id,
  read_filter-combined (scope_of filters) filters.user_id,
  accepts-selects (scope_of filters) filters.user_id,
)

text_in_one : (x r : Text) → text_in x (r ∷ []) ≡ text_eqb x r
unfolding text_in
text_in_one x r = ground arith

resource-ReadsFor :
    (r : Text)
    → ReadsFor (codes "resource_id == " ++ quoted r) (λ resource_id user_id. text_eqb resource_id r)
resource-ReadsFor r = (
  resource_in (r ∷ []) ∷ [],
  read_filter_one (codes "resource_id == " ++ quoted r) (resource_in (r ∷ [])) refl
      (read_atom-resource r),
  λ resource_id user_id. rw (text_in_one resource_id r) (ground arith),
)

resource_filter-ReadsFor :
    (r : Text) (user_id : Option Text) → ReadsFor (resource_filter r user_id) (is_deleted r user_id)
unfolding resource_filter
resource_filter-ReadsFor r none = resource-ReadsFor r
resource_filter-ReadsFor r (some []) = resource-ReadsFor r
resource_filter-ReadsFor r (some (c ∷ u)) = (
  resource_in (r ∷ []) ∷ user_is (c ∷ u) ∷ [],
  read_filter_two (codes "resource_id == " ++ quoted r) (codes "user_id == " ++ quoted (c ∷ u))
      (resource_in (r ∷ [])) (user_is (c ∷ u)) refl (read_atom-resource r) (read_atom-user (c ∷ u)),
  λ resource_id user_id. rw (text_in_one resource_id r) (ground arith),
)

same-Reads :
    (expr other : Text) (p q : Text → Text → Bool)
    → ReadsFor expr p
    → ReadsFor other q
    → expr ≡ other
    → (resource_id user_id : Text) → p resource_id user_id ≡ q resource_id user_id
same-Reads expr other p q (atoms, read, sound) (atoms', read', sound') same resource_id user_id =
    let equal : atoms ≡ atoms' = cc in
    sym (sound resource_id user_id)
    ∙ ap (λ as'. accepts as' resource_id user_id) equal
    ∙ sound' resource_id user_id

-- Different selections have different expressions, whatever quotes, brackets or operators the values
-- contain. Where two searches have the same expression, their filters select the same rows, and where
-- two deletions have the same one, they delete the same rows.
pub filters-Apart :
    (filters others : StoreFilters) (r s : Text) (u v : Option Text)
    → search_filter filters ≡ search_filter others
    → resource_filter r u ≡ resource_filter s v
    → (resource_id user_id : Text)
    → (selects filters resource_id user_id ≡ selects others resource_id user_id)
      × (is_deleted r u resource_id user_id ≡ is_deleted s v resource_id user_id)
filters-Apart filters others r s u v same equal resource_id user_id = (
  same-Reads (search_filter filters) (search_filter others) (selects filters) (selects others)
      (search_filter-ReadsFor filters) (search_filter-ReadsFor others) same resource_id user_id,
  same-Reads (resource_filter r u) (resource_filter s v) (is_deleted r u) (is_deleted s v)
      (resource_filter-ReadsFor r u) (resource_filter-ReadsFor s v) equal resource_id user_id,
)
