-- ===== src/Tests/Extracts.antt =====
-- Witnesses for the extraction: tags and entities with a repetition, and a language model that fails.
use mkc.Prelude.{
  ◌+◌, ◌-◌, true, false, List, [], ◌∷◌, ◌&&◌, map, keep_if, take, leb, if◌then◌else◌, ◌≡◌,
}
use mkc.Prelude.Text.{Text, codes, text_eqb}
use mkc.Prelude.Distinct.{nub}
use mkc.Exceptions.{ok, raise, other}
use mkc.Chunking.{pos}
use mkc.Extraction.{
  TagNormalizer, normalize, Entity, resolve, ExtractionResult, ExtractionResponse, Providers,
  respond,
}
use mkc.Extraction.Tags.{room, tags_of, normalize_lem}
use mkc.Extraction.Entities.{names_entity, trimmed, firsts, resolve_lem}

-- `str.lower` and `str.upper` of ASCII
abbrev lower : Text → Text
lower = map (λ c. if leb 65 c && leb c 90 then c + 32 else c)

abbrev upper : Text → Text
upper = map (λ c. if leb 97 c && leb c 122 then c - 32 else c)

abbrev normalizer : TagNormalizer
normalizer = record { max_count = pos 2; lowercase = false; synonyms = [] }

abbrev tags : List Text
tags = codes "Python" ∷ codes " " ∷ codes " python " ∷ codes "Rust" ∷ codes "Go" ∷ []

normalize_lem_example :
    normalize lower normalizer tags
    ≡ take (room normalizer.max_count) (nub text_eqb lower (tags_of lower normalizer tags))
normalize_lem_example = normalize_lem lower normalizer tags

abbrev entity : Entity
entity = record {
  entity = codes "Berlin ";
  kind = codes "LOC";
  mention = codes "Berlin";
  source = codes "llm";
}

abbrev nameless : Entity
nameless = record {
  entity = codes " ";
  kind = codes "LOC";
  mention = codes "Berlin";
  source = codes "llm";
}

resolve_lem_example :
    resolve lower upper (entity ∷ nameless ∷ entity ∷ [])
    ≡ firsts lower upper
        (map trimmed (keep_if (names_entity lower upper) (entity ∷ nameless ∷ entity ∷ [])))
resolve_lem_example = resolve_lem lower upper (entity ∷ nameless ∷ entity ∷ [])

abbrev found : ExtractionResult
found = record { tags = tags; entities = entity ∷ []; source = codes "rule" }

abbrev providers : Providers
providers = record {
  llm = λ content. raise other;
  rules = λ content. ok found;
  save = λ response. ok tt;
}

abbrev response : ExtractionResponse
response = respond lower upper providers normalizer (codes "r") found true
