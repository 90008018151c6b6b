-- ===== src/Chunking.antt =====
-- ai-service/app/services/chunking and the data that its chunkers share: the configuration with its
-- check, the token estimator, and the chunk of ai-service/app/models/chunk.py.
pub mod Split
pub mod Base
pub mod Fixed
pub mod Paragraph
pub mod Semantic
pub mod Ids
pub mod Checks
pub mod Service
use mkc.Prelude.{
  ℕ, zero, suc, Bool, true, false, Option, none, some, List, [], ◌∷◌, ◌++◌, length, map, leb,
  nat_eqb, if◌then◌else◌, ◌≡◌, ◌≤◌, ◌<◌, arith, ◌+◌,
}
use mkc.Prelude.Text.{Text, codes, text_eqb}
use mkc.Prelude.Decimal.{decimal}

-- `TokenEstimator`. The encoder is tiktoken's, or `none` where that cannot be loaded.
pub record Encoder : Type 0 where
  pub encode : Text → List ℕ
  pub decode : List ℕ → Text

abbrev pub Estimator : Type 0
Estimator = Option Encoder

-- `ord` of each character
unfoldable pub fallback_encode : Text → List ℕ
fallback_encode text = map (λ char. char) text

unfoldable pub encode : Estimator → Text → List ℕ
unfolding fallback_encode
encode none text = fallback_encode text
encode (some encoder) text = encoder.encode text

-- `"".join(chr(token) for token in tokens)`
unfoldable pub decode : Estimator → List ℕ → Text
decode none tokens = map (λ token. token) tokens
decode (some encoder) tokens = encoder.decode tokens

unfoldable pub count : Estimator → Text → ℕ
unfolding encode
count est text = length (encode est text)

-- `ChunkingConfig`, as it is after `__post_init__`.
pub record Config : Type 0 where
  pub default_strategy : Text
  pub chunk_size : ℕ
  pub chunk_overlap : ℕ
  pub separators : List Text
  pub preserve_metadata : Bool
  pub max_input_chars : ℕ

-- A Python `int`; `negsuc n` is -(n + 1).
pub data ℤ : Type 0 where
  pos : ℕ → ℤ
  negsuc : ℕ → ℤ

pub record RawConfig : Type 0 where
  pub default_strategy : Text
  pub chunk_size : ℤ
  pub chunk_overlap : ℤ
  pub separators : List Text
  pub preserve_metadata : Bool
  pub max_input_chars : ℤ

abbrev pub default_separators : List Text
default_separators =
    codes "\n## "
    ∷ codes "\n# "
    ∷ codes "\n\n"
    ∷ codes "\n"
    ∷ codes "。"
    ∷ codes "，"
    ∷ codes " "
    ∷ codes ""
    ∷ []

pub data ConfigError : Type 0 where
  size_not_positive overlap_negative overlap_too_large input_not_positive : ConfigError
  no_separators no_last_resort : ConfigError

pub data Checked : Type 0 where
  accepted : Config → Checked
  value_error : ConfigError → Checked

-- `separators[-1] != ""`
unfoldable pub ends_empty : Text → List Text → Bool
ends_empty sep [] = text_eqb sep []
ends_empty sep (next ∷ rest) = ends_empty next rest

unfoldable pub check_separators : RawConfig → Config → List Text → Checked
unfolding ends_empty
check_separators raw cfg [] = value_error no_separators
check_separators raw cfg (sep ∷ rest) =
    if ends_empty sep rest then accepted cfg else value_error no_last_resort

unfoldable pub check_input : RawConfig → ℕ → ℕ → ℤ → Checked
unfolding check_separators
check_input raw size overlap (negsuc n) = value_error input_not_positive
check_input raw size overlap (pos zero) = value_error input_not_positive
check_input raw size overlap (pos (suc n)) =
    check_separators raw
      (record {
        default_strategy = raw.default_strategy;
        chunk_size = size;
        chunk_overlap = overlap;
        separators = raw.separators;
        preserve_metadata = raw.preserve_metadata;
        max_input_chars = suc n;
      })
      raw.separators

unfoldable pub check_overlap : RawConfig → ℕ → ℤ → Checked
unfolding check_input
check_overlap raw size (negsuc n) = value_error overlap_negative
check_overlap raw size (pos overlap) =
    if leb size overlap
    then value_error overlap_too_large
    else check_input raw size overlap raw.max_input_chars

unfoldable pub check_size : RawConfig → ℤ → Checked
unfolding check_overlap
check_size raw (negsuc n) = value_error size_not_positive
check_size raw (pos zero) = value_error size_not_positive
check_size raw (pos (suc n)) = check_overlap raw (suc n) raw.chunk_overlap

-- `__post_init__`
unfoldable pub post_init : RawConfig → Checked
unfolding check_size
post_init raw = check_size raw raw.chunk_size

-- A dictionary of metadata; `V` stands for its values.
abbrev pub Metadata : Type 0 → Type 0
Metadata V = List (Text × V)

pub record Chunk (V : Type 0) : Type 0 where
  pub id : Text
  pub resource_id : Text
  pub index : ℕ
  pub text : Text
  pub start_pos : ℕ
  pub end_pos : ℕ
  pub metadata : Metadata V
  pub token_count : ℕ

-- `f"{resource_id}-{index}"`
unfoldable pub chunk_id : Text → ℕ → Text
chunk_id resource_id index = resource_id ++ (codes "-" ++ decimal index)

-- `_make_chunk`
unfoldable pub make_chunk :
    {V : Type 0} → Config → Estimator → Text → Text → Metadata V → ℕ → ℕ → ℕ → Chunk V
unfolding chunk_id
make_chunk cfg est text resource_id metadata index start_pos end_pos = record {
  id = chunk_id resource_id index;
  resource_id = resource_id;
  index = index;
  text = text;
  start_pos = start_pos;
  end_pos = end_pos;
  metadata = if cfg.preserve_metadata then metadata else [];
  token_count = count est text;
}
