-- ===== src/Extraction/Entities.antt =====
-- `EntityResolver.resolve` without the loop, and the response of `ExtractionService.extract`.
use mkc.Prelude.{
  true, false, List, [], ◌∷◌, map, keep_if, ◌≡◌, refl, ap, ◌∙◌, arith, ◌⊎◌, Bool, not, ◌&&◌, ◌||◌,
  All,
}
use mkc.Prelude.Reorder.{keep_if-ext}
use mkc.Prelude.Text.{Text, codes, text_eqb, text_in, strip, nonempty}
use mkc.Prelude.Distinct.{nub}
use mkc.Exceptions.{Exception, ok, raise}
use mkc.Extraction.Seen.{entities_of, resolve-nub}
use mkc.Extraction.{
  Entity, Tag, normalize, TagNormalizer, ExtractionResult, ExtractionResponse, Providers,
  entity_key, stripped, is_entity, key_eqb, resolve,
}

All_each :
    {p q : Entity → Bool}
    → ((x : Entity) → p x ≡ q x)
    → (xs : List Entity) → All (λ x. p x ≡ q x) xs
All_each h [] = tt
All_each h (x ∷ xs) = (h x, All_each h xs)

-- without white space at the ends of the name and the mention
abbrev pub trimmed : Entity → Entity
trimmed item = record {
  entity = strip item.entity;
  kind = item.kind;
  mention = strip item.mention;
  source = item.source;
}

module _ (lower upper : Text → Text) where
  -- An item with a name and a mention that are not blank, of one of the six types
  abbrev pub names_entity : Entity → Bool
  names_entity item =
      nonempty (strip item.entity)
      && (nonempty (strip item.mention)
          && (text_eqb (upper item.kind) (codes "PERSON")
              || (text_eqb (upper item.kind) (codes "ORG")
                  || (text_eqb (upper item.kind) (codes "DATE")
                      || (text_eqb (upper item.kind) (codes "LOC")
                          || (text_eqb (upper item.kind) (codes "GPE")
                              || text_eqb (upper item.kind) (codes "MISC")))))))

  -- The name, the type and the mention are the same up to case.
  abbrev pub same_entity : Entity → Entity → Bool
  same_entity x y =
      text_eqb (lower x.entity) (lower y.entity)
      && text_eqb (upper x.kind) (upper y.kind)
      && text_eqb (lower x.mention) (lower y.mention)

  -- Each item that is the same as no earlier one
  abbrev pub firsts : List Entity → List Entity
  firsts [] = []
  firsts (x ∷ xs) = x ∷ keep_if (λ y. not (same_entity y x)) (firsts xs)

  nub-firsts : (xs : List Entity) → nub key_eqb (entity_key lower upper) xs ≡ firsts xs
  unfolding nub key_eqb entity_key
  nub-firsts [] = refl
  nub-firsts (x ∷ xs) = ap (λ rest. x ∷ keep_if (λ y. not (same_entity y x)) rest) (nub-firsts xs)

  is_entity_lem : (item : Entity) → is_entity lower upper item ≡ names_entity item
  unfolding is_entity text_in
  is_entity_lem item = ground arith

  entities_of_lem :
      (items : List Entity)
      → entities_of lower upper items ≡ map trimmed (keep_if names_entity items)
  unfolding stripped
  entities_of_lem items =
      ap (map trimmed)
        (keep_if-ext (is_entity lower upper) names_entity items (All_each is_entity_lem items))

  -- The items with a name, a mention and one of the six types are kept, with no white space around the
  -- name and the mention, where no earlier one of them has the same name, type and mention up to case.
  pub resolve_lem :
      (items : List Entity)
      → resolve lower upper items ≡ firsts (map trimmed (keep_if names_entity items))
  resolve_lem items =
      resolve-nub lower upper items
      ∙ nub-firsts (entities_of lower upper items)
      ∙ ap firsts (entities_of_lem items)

-- The response for what was extracted: its fields, with the source on each tag and each entity
abbrev pub Presents :
    (Text → Text)
    → (Text → Text)
    → TagNormalizer
    → Text
    → ExtractionResult
    → Text
    → ExtractionResponse
    → Type 0
Presents lower upper normalizer resource_id extracted source response =
    (response.resource_id ≡ resource_id)
    × (response.source ≡ source)
    × (map (λ (t : Tag). t.tag) response.tags ≡ normalize lower normalizer extracted.tags)
    × All (λ (t : Tag). t.source ≡ source) response.tags
    × (response.entities
        ≡ map
            (λ (item : Entity). record {
              entity = item.entity;
              kind = item.kind;
              mention = item.mention;
              source = source;
            })
            (resolve lower upper extracted.entities))

-- The response comes from the language model, or from the rules where that one raised.
abbrev pub ComesFrom :
    (Text → Text)
    → (Text → Text)
    → Providers
    → TagNormalizer
    → Text
    → Text
    → ExtractionResponse
    → Type 0
ComesFrom lower upper providers normalizer resource_id content response =
    (extracted : ExtractionResult) × (((providers.llm content ≡ ok extracted)
        × (response.fallback ≡ false)
        × Presents lower upper normalizer resource_id extracted extracted.source response)
      ⊎ ((e : Exception) × (providers.llm content ≡ raise e)
          × (providers.rules content ≡ ok extracted)
          × (response.fallback ≡ true)
          × Presents lower upper normalizer resource_id extracted (codes "rule") response))

-- The response for a blank content
abbrev pub IsBlank : Text → ExtractionResponse → Type 0
IsBlank resource_id response =
    (response.resource_id ≡ resource_id)
    × (response.tags ≡ [])
    × (response.entities ≡ [])
    × (response.source ≡ codes "rule")
    × (response.fallback ≡ true)
