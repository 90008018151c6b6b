-- ===== src/Embedding/Order.antt =====
-- The embeddings stand in the order of the chunks.
use mkc.Prelude.{true, List, [], ◌∷◌, ◌++◌, length, ◌≡◌, ◌⊎◌}
use mkc.Prelude.Text.{Text, nonempty}
use mkc.Memory.{ChunkInput}
use mkc.Embedding.{EmbeddingConfig, Embedding, Provider, prepare_text, zero_vector, final_vector}

-- The batches, one behind the other
abbrev concat : {A : Type 0} → List (List A) → List A
concat [] = []
concat (xs ∷ xss) = xs ++ concat xss

module _ {F : Type 0} (provider : Provider F) (cfg : EmbeddingConfig) where
  -- The embedding of a chunk: a vector of the configured length, that of nought where the text of the
  -- chunk is blank.
  abbrev pub IsEmbedding : ChunkInput → Embedding F → Type 0
  IsEmbedding chunk e =
      (e.chunk_id ≡ chunk.id)
      × (e.resource_id ≡ chunk.resource_id)
      × (v : List F) × (length v ≡ cfg.dimensions)
      × (e.vector ≡ final_vector provider cfg v)
      × ((nonempty (prepare_text provider cfg chunk.text) ≡ true) ⊎ (v ≡ zero_vector provider cfg))

  -- One embedding for each chunk, in order
  abbrev pub Embeds : List ChunkInput → List (Embedding F) → Type 0
  Embeds [] [] = Unit
  Embeds [] (e ∷ es) = ⊥
  Embeds (c ∷ cs) [] = ⊥
  Embeds (c ∷ cs) (e ∷ es) = IsEmbedding c e × Embeds cs es
