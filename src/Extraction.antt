-- ===== src/Extraction.antt =====
-- ai-service/app/services/extraction: the tags and the entities of a text. The language model, the
-- regular expressions of the rules and the repository are parameters; `lower` and `upper` are the
-- methods of `str`.
pub mod Tags
pub mod Seen
pub mod Entities
use mkc.Prelude.{
  ℕ, suc, ◌+◌, Bool, true, false, not, ◌&&◌, ◌||◌, Option, none, some, List, [], ◌∷◌, ◌++◌, map,
  length, leb, if◌then◌else◌, keep_if,
}
use mkc.Prelude.Text.{Text, codes, text_eqb, text_in, strip, nonempty}
use mkc.Prelude.Dict.{lookup}
use mkc.Prelude.Distinct.{member}
use mkc.Exceptions.{Exception, Result, ok, raise, ◌>>=◌}
use mkc.Chunking.{ℤ, pos, negsuc}

-- `SYNONYM_MAP`
abbrev pub synonym_map : List (Text × Text)
synonym_map =
    (codes "ai", codes "人工智能")
    ∷ (codes "artificial intelligence", codes "人工智能")
    ∷ (codes "ml", codes "机器学习")
    ∷ (codes "machine learning", codes "机器学习")
    ∷ (codes "nlp", codes "自然语言处理")
    ∷ []

-- The keys of the configuration that `TagNormalizer` reads
pub record TagConfig : Type 0 where
  pub max_count : Option ℤ
  pub normalize_lowercase : Option Bool
  pub synonym_merge : Option Bool

-- `TagNormalizer`
pub record TagNormalizer : Type 0 where
  pub max_count : ℤ
  pub lowercase : Bool
  pub synonyms : List (Text × Text)

-- `d.get(key, default)`
abbrev pub default_to {ℓ} : {A : Type ℓ} → A → Option A → A
default_to d none = d
default_to d (some a) = a

-- `TagNormalizer.__init__`
unfoldable pub tag_normalizer : TagConfig → TagNormalizer
tag_normalizer config = record {
  max_count = default_to (pos 10) config.max_count;
  lowercase = default_to false config.normalize_lowercase;
  synonyms = if default_to true config.synonym_merge then synonym_map else [];
}

-- `n >= m` for a count `n`
unfoldable pub reaches : ℕ → ℤ → Bool
reaches n (pos m) = leb m n
reaches n (negsuc m) = true

module _ (lower : Text → Text) where
  -- The tag that is kept for a tag without white space at its ends
  unfoldable pub canonical : TagNormalizer → Text → Text
  canonical normalizer tag =
      let merged = default_to tag (lookup (lower tag) normalizer.synonyms) in
      if normalizer.lowercase then lower merged else merged

  -- The loop of `normalize`, where `count` tags are in the result
  unfoldable pub normalize_from : TagNormalizer → List Text → ℕ → List Text → List Text
  normalize_from normalizer seen count [] = []
  normalize_from normalizer seen count (raw ∷ tags) =
      let tag = canonical normalizer (strip raw) in
      let skipped = normalize_from normalizer seen count tags in
      let rest = normalize_from normalizer (lower tag ∷ seen) (suc count) tags in
      if not (nonempty (strip raw))
      then skipped
      else if member text_eqb (lower tag) seen
      then skipped
      else if reaches (suc count) normalizer.max_count
      then tag ∷ []
      else tag ∷ rest

  -- `normalize`
  unfoldable pub normalize : TagNormalizer → List Text → List Text
  normalize normalizer tags = normalize_from normalizer [] 0 tags

-- `Entity`
pub record Entity : Type 0 where
  pub entity : Text
  pub kind : Text
  pub mention : Text
  pub source : Text

-- `ALLOWED_TYPES`
abbrev pub allowed_types : List Text
allowed_types =
    codes "PERSON" ∷ codes "ORG" ∷ codes "DATE" ∷ codes "LOC" ∷ codes "GPE" ∷ codes "MISC" ∷ []

-- `==` on the keys of entities
unfoldable pub key_eqb : (Text × Text × Text) → (Text × Text × Text) → Bool
key_eqb (a, b, c) (d, e, f) = text_eqb a d && text_eqb b e && text_eqb c f

-- The entity that is kept for an item
unfoldable pub stripped : Entity → Entity
stripped item = record item { entity = strip item.entity; mention = strip item.mention }

module _ (lower upper : Text → Text) where
  unfoldable pub entity_key : Entity → Text × Text × Text
  entity_key item = (lower item.entity, upper item.kind, lower item.mention)

  unfoldable pub is_entity : Entity → Bool
  is_entity item =
      nonempty (strip item.entity)
      && nonempty (strip item.mention)
      && text_in (upper item.kind) allowed_types

  -- The loop of `resolve`
  unfoldable pub resolve_from : List (Text × Text × Text) → List Entity → List Entity
  resolve_from seen [] = []
  resolve_from seen (item ∷ items) =
      let key = entity_key (stripped item) in
      let skipped = resolve_from seen items in
      let rest = resolve_from (key ∷ seen) items in
      if not (is_entity item)
      then skipped
      else if member key_eqb key seen
      then skipped
      else stripped item ∷ rest

  -- `resolve`
  unfoldable pub resolve : List Entity → List Entity
  resolve items = resolve_from [] items

-- `ExtractionResult`
pub record ExtractionResult : Type 0 where
  pub tags : List Text
  pub entities : List Entity
  pub source : Text

pub record Tag : Type 0 where
  pub tag : Text
  pub source : Text

pub record ExtractionResponse : Type 0 where
  pub resource_id : Text
  pub tags : List Tag
  pub entities : List Entity
  pub source : Text
  pub fallback : Bool

-- The collaborators of `ExtractionService`
pub record Providers : Type 0 where
  pub llm : Text → Result ExtractionResult
  pub rules : Text → Result ExtractionResult
  pub save : ExtractionResponse → Result {0} Unit

abbrev pub rule_source : Text
rule_source = codes "rule"

module _ (lower upper : Text → Text) (providers : Providers) (normalizer : TagNormalizer) where
  -- What is extracted, and whether the rules did it
  unfoldable pub extract_content : Text → Result (ExtractionResult × Bool)
  extract_content content = elim (providers.llm content) [
    | ok extracted ↦ ok (extracted, false)
    | raise e ↦ providers.rules content >>= λ extracted. ok (extracted, true)
  ]

  unfoldable pub respond : Text → ExtractionResult → Bool → ExtractionResponse
  respond resource_id extracted fallback =
      let source = if fallback then rule_source else extracted.source in
      record {
        resource_id = resource_id;
        tags =
            map {A = Text} {B = Tag} (λ tag. record { tag = tag; source = source })
              (normalize lower normalizer extracted.tags);
        entities =
            map {A = Entity} {B = Entity} (λ item. record item { source = source })
              (resolve lower upper extracted.entities);
        source = source;
        fallback = fallback;
      }

  abbrev pub empty_response : Text → ExtractionResponse
  empty_response resource_id = record {
    resource_id = resource_id;
    tags = [];
    entities = [];
    source = rule_source;
    fallback = true;
  }

  -- `extract`
  unfoldable pub extract : Text → Text → Result ExtractionResponse
  extract resource_id raw =
      let content = strip raw in
      if not (nonempty content)
      then (providers.save (empty_response resource_id) >>= λ _. ok (empty_response resource_id))
      else extract_content content >>= λ (extracted, fallback).
          let response = respond resource_id extracted fallback in
          providers.save response >>= λ _. ok response
