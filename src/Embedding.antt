-- ===== src/Embedding.antt =====
-- ai-service/app/services/embedding/service.py. The provider and NumPy's normalization are the record
-- `Provider`; the attempts of a retried call are numbered.
pub mod Order
use mkc.Prelude.{
  max, ◌&&◌, ℕ, zero, suc, Bool, true, false, List, [], ◌∷◌, ◌++◌, map, length, take, drop, keep_if,
  ltb, nat_eqb, if◌then◌else◌, ◌≡◌,
}
use mkc.Prelude.Text.{Text, codes, nonempty, strip}
use mkc.Exceptions.{
  Exception, Result, ok, raise, ◌>>=◌, embedding_authentication, embedding_unavailable, other,
  dimension_mismatch,
}
use mkc.Memory.{ChunkInput}

-- `EmbeddingConfig`, with the fields that the service reads.
pub record EmbeddingConfig : Type 0 where
  pub batch_size : ℕ
  pub dimensions : ℕ
  pub max_text_chars : ℕ
  pub max_retries : ℕ
  pub normalize : Bool

-- `Embedding`
pub record Embedding (F : Type 0) : Type 0 where
  pub chunk_id : Text
  pub resource_id : Text
  pub vector : List F
  pub dimensions : ℕ

-- `provider.embed` at an attempt, `0.0`, and the division of a vector by its norm.
pub record Provider (F : Type 0) : Type 0 where
  pub embed : ℕ → List Text → Result (List (List F))
  pub nought : F
  pub unit : List F → List F

-- `[value] * n`
unfoldable pub repeat : {A : Type 0} → ℕ → A → List A
repeat zero a = []
repeat (suc n) a = a ∷ repeat n a

-- `_batches`, on fuel; a round takes `batch_size` chunks.
unfoldable pub batches_from : {A : Type 0} → ℕ → ℕ → List A → List (List A)
batches_from zero size chunks = []
batches_from (suc f) size chunks =
    let rest = batches_from f size (drop size chunks) in
    if nonempty chunks then take size chunks ∷ rest else []

unfoldable pub batches : {A : Type 0} → ℕ → List A → List (List A)
batches size chunks = batches_from (length chunks) size chunks

module _ {F : Type 0} (provider : Provider F) (cfg : EmbeddingConfig) where
  -- `_prepare_text`
  unfoldable pub prepare_text : Text → Text
  prepare_text text =
      let stripped = strip text in
      if nonempty stripped
      then if ltb cfg.max_text_chars (length stripped)
        then take cfg.max_text_chars stripped
        else stripped
      else []

  -- `_zero_vector`
  unfoldable pub zero_vector : List F
  zero_vector = repeat cfg.dimensions provider.nought

  -- The attempts of `_embed_batch`, of which `left` are left
  unfoldable pub attempts : ℕ → ℕ → List Text → Result (List (List F))
  attempts zero attempt texts = raise embedding_unavailable
  attempts (suc left) attempt texts = elim (provider.embed attempt texts) [
    | ok vectors ↦ ok vectors
    | raise e ↦ elim e as (λ _. Result (List (List F))) [
      | embedding_authentication ↦ raise embedding_authentication
      | _ ↦ attempts left (suc attempt) texts
    ]
  ]

  -- `_embed_batch`; a first attempt is made in any case.
  unfoldable pub embed_batch : List Text → Result (List (List F))
  embed_batch texts = attempts (max 1 cfg.max_retries) 0 texts

  -- The vectors of a batch: those that were returned at the places of the texts that are not empty.
  unfoldable pub place : List Text → List (List F) → List (List F)
  place [] returned = []
  place (text ∷ texts) [] = zero_vector ∷ place texts []
  place (text ∷ texts) (v ∷ vs) =
      if nonempty text then v ∷ place texts vs else zero_vector ∷ place texts (v ∷ vs)

  -- `_normalize`, where the configuration asks for it
  unfoldable pub final_vector : List F → List F
  final_vector vector = if cfg.normalize then provider.unit vector else vector

  -- `_build_embedding`
  unfoldable pub build_embedding : ChunkInput → List F → Result (Embedding F)
  build_embedding chunk vector =
      if nat_eqb (length vector) cfg.dimensions
      then ok (record {
        chunk_id = chunk.id;
        resource_id = chunk.resource_id;
        vector = final_vector vector;
        dimensions = length (final_vector vector);
      })
      else raise dimension_mismatch

  -- The list that a batch gives
  unfoldable pub build_all : List ChunkInput → List (List F) → Result (List (Embedding F))
  build_all (chunk ∷ chunks) (vector ∷ vectors) = build_embedding chunk vector >>= λ embedding.
      build_all chunks vectors >>= λ rest. ok (embedding ∷ rest)
  build_all _ _ = ok []

  abbrev pub prepared : List ChunkInput → List Text
  prepared batch = map (λ chunk. prepare_text chunk.text) batch

  -- The vectors of the texts that are not empty; as many as texts, or an error.
  unfoldable pub returned_vectors : List Text → Result (List (List F))
  returned_vectors [] = ok []
  returned_vectors (text ∷ texts) = embed_batch (text ∷ texts) >>= λ returned.
      if nat_eqb (length returned) (length (text ∷ texts))
      then ok returned
      else raise dimension_mismatch

  -- `_embed_batch_with_fallback`
  unfoldable pub embed_batch_with_fallback : List ChunkInput → Result (List (Embedding F))
  embed_batch_with_fallback batch =
      returned_vectors (keep_if nonempty (prepared batch)) >>= λ returned.
      build_all batch (place (prepared batch) returned)

  -- The loop of `embed`
  unfoldable pub embed_all : List (List ChunkInput) → Result (List (Embedding F))
  embed_all [] = ok []
  embed_all (batch ∷ rest) = embed_batch_with_fallback batch >>= λ embeddings.
      embed_all rest >>= λ more. ok (embeddings ++ more)

  -- `embed`; a batch size of nought is an error of `range`.
  unfoldable pub embed : List ChunkInput → Result (List (Embedding F))
  embed chunks =
      if nonempty chunks && nat_eqb cfg.batch_size 0
      then raise other
      else embed_all (batches cfg.batch_size chunks)

  unfoldable pub first_vector : List (Embedding F) → List F
  first_vector [] = zero_vector
  first_vector (embedding ∷ _) = embedding.vector

  -- `embed_query`
  unfoldable pub embed_query : Text → Result (List F)
  embed_query text =
      embed (record { id = codes "query"; resource_id = codes "query"; text = text } ∷ [])
      >>= λ embeddings. ok (first_vector embeddings)
