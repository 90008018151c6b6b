-- ===== src/Indexing/Stored.antt =====
-- What indexing does to the vector store.
use mkc.Prelude.{List, [], ◌∷◌, All, ◌≡◌, ◌⊎◌}
use mkc.Prelude.Text.{Text}
use mkc.Chunking.{Chunk}
use mkc.Models.{VectorRecord}
use mkc.Embedding.{Embedding}
use mkc.Indexing.{Value, StoreCall, delete_by_resource, upsert}

-- Every chunk is of the resource.
abbrev OfResource : {F : Type 0} → Text → List (Chunk (Value F)) → Type 0
OfResource resource_id chunks = All (λ c. c.resource_id ≡ resource_id) chunks

-- The records of the user and the resource
abbrev pub Owned : {F : Type 0} → Text → Text → List (VectorRecord F (Value F)) → Type 0
Owned user_id resource_id recs =
    All (λ r. (r.user_id ≡ user_id) × (r.resource_id ≡ resource_id)) recs

-- Nothing is called, or the records of the resource are deleted, and, if that returns, new ones of the
-- same user and resource are stored in their place.
abbrev pub Replaces : {F : Type 0} → Text → Text → List (StoreCall F) → Type 0
Replaces {F} user_id resource_id calls =
    (calls ≡ [])
    ⊎ ((calls ≡ delete_by_resource resource_id user_id ∷ [])
        ⊎ ((recs : List (VectorRecord F (Value F))) × (calls
              ≡ delete_by_resource resource_id user_id ∷ upsert recs ∷ [])
            × Owned user_id resource_id recs))
