-- ===== src/Stores.antt =====
-- ai-service/app/vector_store: what the stores of vectors select by, and the records of both.
pub mod Milvus
pub mod Chroma
use mkc.Prelude.{ℕ, Bool, true, false, ◌&&◌, Option, none, some, List, [], ◌∷◌, if◌then◌else◌, ◌≡◌}
use mkc.Exceptions.{Exception, api}
use mkc.Prelude.Text.{Text, codes, text_eqb, text_in}

-- The value of `filters["resource_ids"]`: a text, or a list of texts
pub data Scope : Type 0 where
  one : Text → Scope
  many : List Text → Scope

-- The dictionary of filters, by its keys
pub record StoreFilters : Type 0 where
  pub resource_ids : Option Scope
  pub resource_id : Option Scope
  pub user_id : Option Text

-- `filters.get("resource_ids")`, or else `filters.get("resource_id")`
unfoldable pub scope_of : StoreFilters → Option Scope
scope_of filters = elim filters.resource_ids [
  | none ↦ filters.resource_id
  | some scope ↦ some scope
]

-- `VectorStoreConfig`, as far as the stores read it here; `top_k_limit` is a property.
pub record StoreConfig : Type 0 where
  pub metric_type : Text
  pub max_retries : ℕ
  pub dimensions : ℕ

abbrev pub top_k_limit : ℕ
top_k_limit = 100

-- What filters select: no list means every resource, and an empty one the resource with no name.
abbrev pub in_scope : Option Scope → Text → Bool
in_scope none resource_id = true
in_scope (some (one r)) resource_id = text_eqb resource_id r
in_scope (some (many [])) resource_id = text_eqb resource_id []
in_scope (some (many (r ∷ rs))) resource_id = text_in resource_id (r ∷ rs)

abbrev pub of_user : Option Text → Text → Bool
of_user none user_id = true
of_user (some u) user_id = text_eqb user_id u

abbrev pub selects : StoreFilters → Text → Text → Bool
selects filters resource_id user_id =
    in_scope (scope_of filters) resource_id && of_user filters.user_id user_id

-- The operations on floats: `0.0`, `1.0`, `a < b`, `a + b`, `a - b` and `a / b`
pub record Arith (F : Type 0) : Type 0 where
  pub nought : F
  pub one : F
  pub less : F → F → Bool
  pub plus : F → F → F
  pub minus : F → F → F
  pub over : F → F → F

-- Python's `max(0.0, a)`
unfoldable pub at_least_nought : {F : Type 0} → Arith F → F → F
at_least_nought fl a = if fl.less fl.nought a then a else fl.nought

-- `VectorStoreUnavailableError` and `VectorStoreConfigError`
abbrev pub unavailable : Exception
unavailable = api (codes "VECTOR_STORE_UNAVAILABLE")

abbrev pub config_error : Exception
config_error = api (codes "VECTOR_STORE_CONFIG_ERROR")

unfoldable pub is_config_error : Exception → Bool
is_config_error (api code) = text_eqb code (codes "VECTOR_STORE_CONFIG_ERROR")
is_config_error _ = false
