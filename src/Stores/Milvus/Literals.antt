-- ===== src/Stores/Milvus/Literals.antt =====
-- A reader of the conditions in a filter expression that undoes `_escape_expr`: two quotes in a literal
-- are one quote. It serves to tell expressions apart, and is not Milvus's own; each condition that
-- the store writes is read back.
use mkc.Prelude.{
  ℕ, zero, suc, ◌≤◌, Bool, true, false, Option, none, some, List, [], ◌∷◌, ◌++◌, map, nat_eqb,
  if◌then◌else◌, ◌≡◌, refl, ap, ◌∙◌, arith, Bool-cases, inl, inr, length, length-append,
}
use mathlib.Core.List.{append_assoc}
use mkc.Prelude.Text.{Text, codes, join}
use mkc.Stores.{many}
use mkc.Stores.Milvus.{quote, escape_expr, quoted, resource_id_filter}

-- A condition of an expression
pub data Atom : Type 0 where
  resource_in : List Text → Atom
  user_is : Text → Atom

abbrev pub strip_prefix : Text → Text → Option Text
strip_prefix [] s = some s
strip_prefix (p ∷ ps) [] = none
strip_prefix (p ∷ ps) (c ∷ s) = if nat_eqb p c then strip_prefix ps s else none

-- A character in front of what a literal gives
abbrev pub in_front : ℕ → Option (Text × Text) → Option (Text × Text)
in_front c none = none
in_front c (some (value, rest)) = some (c ∷ value, rest)

-- The literal behind its first quote, and the rest; `pending` says that a quote was read.
unfoldable pub read_literal : Bool → Text → Option (Text × Text)
read_literal false [] = none
read_literal true [] = some ([], [])
read_literal false (c ∷ s) =
    let closing = read_literal true s in
    let longer = in_front c (read_literal false s) in if nat_eqb c quote then closing else longer
read_literal true (c ∷ s) =
    let longer = in_front quote (read_literal false s) in
    if nat_eqb c quote then longer else some ([], c ∷ s)

-- A text that does not begin with a quote
abbrev pub NoQuote : Text → Type 0
NoQuote [] = Unit
NoQuote (c ∷ s) = nat_eqb c quote ≡ false

read_literal-pending : (rest : Text) → NoQuote rest → read_literal true rest ≡ some ([], rest)
unfolding read_literal
read_literal-pending [] h = refl
read_literal-pending (c ∷ s) h = rw h refl

read_literal-escape_expr :
    (value rest : Text)
    → NoQuote rest
    → read_literal false (escape_expr value ++ (quote ∷ rest)) ≡ some (value, rest)
unfolding read_literal escape_expr
read_literal-escape_expr [] rest h = read_literal-pending rest h
read_literal-escape_expr (c ∷ value) rest h = elim (Bool-cases (nat_eqb c quote)) [
  | inl e ↦
      let same : c ≡ quote = ground (arith, e) in
      rw (same, read_literal-escape_expr value rest h) refl
  | inr e ↦ rw (e, e, read_literal-escape_expr value rest h) refl
]

-- An item in front of what a list gives
abbrev pub item_in_front : Text → Option (List Text × Text) → Option (List Text × Text)
item_in_front value none = none
item_in_front value (some (values, rest)) = some (value ∷ values, rest)

-- What follows an item: the bracket, or an item more
abbrev pub after_item :
    (Text → Option (List Text × Text)) → Option (Text × Text) → Option (List Text × Text)
after_item read_more none = none
after_item read_more (some (value, rest)) = elim (strip_prefix (codes "]") rest) [
  | some behind_list ↦ some (value ∷ [], behind_list)
  | none ↦ elim (strip_prefix (codes ", '") rest) [
    | none ↦ none
    | some items ↦ item_in_front value (read_more items)
  ]
]

-- The items of a list behind its first quote, up to the bracket, on fuel
unfoldable pub read_items : ℕ → Text → Option (List Text × Text)
read_items zero s = none
read_items (suc n) s = after_item (read_items n) (read_literal false s)

-- The items behind the first
abbrev behind : List Text → Text → Text
behind [] rest = rest
behind (value ∷ values) rest =
    codes ", " ++ (quote ∷ (escape_expr value ++ (quote ∷ behind values rest)))

quoted-append :
    (value rest : Text) → quoted value ++ rest ≡ quote ∷ (escape_expr value ++ (quote ∷ rest))
unfolding quoted
quoted-append value rest = ap (◌∷◌ quote) (append_assoc (escape_expr value) (quote ∷ []) rest)

join-behind :
    (value : Text) (values : List Text) (rest : Text)
    → join (codes ", ") (map quoted (value ∷ values)) ++ rest
      ≡ quote ∷ (escape_expr value ++ (quote ∷ behind values rest))
unfolding join
join-behind value [] rest = quoted-append value rest
join-behind value (next ∷ values) rest =
    append_assoc (quoted value) (codes ", " ++ join (codes ", ") (map quoted (next ∷ values))) rest
    ∙ ap (λ t. quoted value ++ (codes ", " ++ t)) (join-behind next values rest)
    ∙ quoted-append value (behind (next ∷ values) rest)

behind-NoQuote : (values : List Text) (rest : Text) → NoQuote (behind values (codes "]" ++ rest))
behind-NoQuote [] rest = refl
behind-NoQuote (value ∷ values) rest = refl

read_items-behind :
    (n : ℕ) (value : Text) (values : List Text) (rest : Text)
    → length values ≤ n
    → read_items (suc n) (escape_expr value ++ (quote ∷ behind values (codes "]" ++ rest)))
      ≡ some (value ∷ values, rest)
unfolding read_items
read_items-behind n value [] rest h =
    ap (after_item (read_items n)) (read_literal-escape_expr value (codes "]" ++ rest) refl)
read_items-behind zero value (next ∷ values) rest h = absurd (omega arith)
read_items-behind (suc n) value (next ∷ values) rest h =
    ap (after_item (read_items (suc n)))
      (read_literal-escape_expr value (behind (next ∷ values) (codes "]" ++ rest)) refl)
    ∙ ap (item_in_front value) (read_items-behind n next values rest (omega arith))

abbrev pub as_resource : Option (Text × Text) → Option (Atom × Text)
as_resource none = none
as_resource (some (value, rest)) = some (resource_in (value ∷ []), rest)

abbrev pub as_user : Option (Text × Text) → Option (Atom × Text)
as_user none = none
as_user (some (value, rest)) = some (user_is value, rest)

abbrev pub as_resources : Option (List Text × Text) → Option (Atom × Text)
as_resources none = none
as_resources (some (values, rest)) = some (resource_in values, rest)

-- One condition, and the rest
unfoldable pub read_atom : Text → Option (Atom × Text)
read_atom s = elim (strip_prefix (codes "resource_id == '") s) [
  | some value ↦ as_resource (read_literal false value)
  | none ↦ elim (strip_prefix (codes "resource_id in ['") s) [
    | some items ↦ as_resources (read_items (length items) items)
    | none ↦ elim (strip_prefix (codes "user_id == '") s) [
      | none ↦ none
      | some value ↦ as_user (read_literal false value)
    ]
  ]
]

pub read_atom-resource :
    (value rest : Text)
    → NoQuote rest
    → read_atom ((codes "resource_id == " ++ quoted value) ++ rest)
      ≡ some (resource_in (value ∷ []), rest)
unfolding read_atom
read_atom-resource value rest h =
    rw (quoted-append value rest) (ap as_resource (read_literal-escape_expr value rest h))

pub read_atom-user :
    (value rest : Text)
    → NoQuote rest
    → read_atom ((codes "user_id == " ++ quoted value) ++ rest) ≡ some (user_is value, rest)
unfolding read_atom
read_atom-user value rest h =
    rw (quoted-append value rest) (ap as_user (read_literal-escape_expr value rest h))

length-behind : (values : List Text) (rest : Text) → length values ≤ length (behind values rest)
length-behind [] rest = omega arith
length-behind (value ∷ values) rest = omega (
  arith,
  length-append {0} (escape_expr value) (quote ∷ behind values rest),
  length-behind values rest,
)

list_text :
    (r s : Text) (ids : List Text) (rest : Text)
    → resource_id_filter (some (many (r ∷ s ∷ ids))) ++ rest
      ≡ codes "resource_id in ["
        ++ (quote ∷ (escape_expr r ++ (quote ∷ behind (s ∷ ids) (codes "]" ++ rest))))
unfolding resource_id_filter
list_text r s ids rest = ap (◌++◌ (codes "resource_id in [")) (
    append_assoc (join (codes ", ") (map quoted (r ∷ s ∷ ids))) (codes "]") rest
    ∙ join-behind r (s ∷ ids) (codes "]" ++ rest))

pub read_items_enough :
    (n : ℕ) (value : Text) (values : List Text) (rest : Text)
    → suc (length values) ≤ n
    → read_items n (escape_expr value ++ (quote ∷ behind values (codes "]" ++ rest)))
      ≡ some (value ∷ values, rest)
read_items_enough zero value values rest h = absurd (omega arith)
read_items_enough (suc n) value values rest h = read_items-behind n value values rest (omega arith)

pub read_atom-resources :
    (r s : Text) (ids : List Text) (rest : Text)
    → read_atom (resource_id_filter (some (many (r ∷ s ∷ ids))) ++ rest)
      ≡ some (resource_in (r ∷ s ∷ ids), rest)
unfolding read_atom
read_atom-resources r s ids rest =
    let tail = behind (s ∷ ids) (codes "]" ++ rest) in
    let items = escape_expr r ++ (quote ∷ tail) in
    rw (list_text r s ids rest) (
      ap as_resources (
        read_items_enough (length items) r (s ∷ ids) rest (
          omega (
            arith,
            length-append {0} (escape_expr r) (quote ∷ tail),
            length-behind (s ∷ ids) (codes "]" ++ rest),
          ))))
