-- ===== src/Chunking/Ids.antt =====
-- Chunks that are numbered have identifiers that differ.
use mkc.Prelude.{
  ℕ, suc, ◌<◌, List, [], ◌∷◌, ◌++◌, All, All-imp, append_cancel, ◌≢◌, ◌≡◌, sym, ◌∙◌, arith,
}
use mkc.Prelude.Text.{Text, codes}
use mkc.Prelude.Decimal.{decimal, decimal_injective}
use mkc.Chunking.{Chunk, chunk_id}
use mkc.Chunking.Semantic.{Numbered}

pub chunk_id_injective :
    (resource_id : Text) (i j : ℕ) → chunk_id resource_id i ≡ chunk_id resource_id j → i ≡ j
unfolding chunk_id
chunk_id_injective resource_id i j h = decimal_injective i j (
    append_cancel (codes "-") (decimal i) (decimal j)
      (append_cancel resource_id (codes "-" ++ decimal i) (codes "-" ++ decimal j) h))

-- No two chunks of the list have the same identifier.
abbrev pub DistinctIds : {V : Type 0} → List (Chunk V) → Type 0
DistinctIds [] = Unit
DistinctIds (c ∷ cs) = All (λ d. c.id ≢ d.id) cs × DistinctIds cs

module _ {V : Type 0} (resource_id : Text) where
  Numbered-fresh :
      (i j : ℕ) (cs : List (Chunk V))
      → i < j
      → Numbered resource_id j cs
      → All (λ d. chunk_id resource_id i ≢ d.id) cs
  Numbered-fresh i j [] lt n = tt
  Numbered-fresh i j (c ∷ cs) lt n = (
    λ same. omega (arith, chunk_id_injective resource_id i j (same ∙ n.1)),
    Numbered-fresh i (suc j) cs (omega arith) n.3,
  )

  pub Numbered-DistinctIds :
      (i : ℕ) (cs : List (Chunk V)) → Numbered resource_id i cs → DistinctIds cs
  Numbered-DistinctIds i [] n = tt
  Numbered-DistinctIds i (c ∷ cs) n = (
    All-imp (λ d ne same. ne (sym n.1 ∙ same)) cs (Numbered-fresh i (suc i) cs (omega arith) n.3),
    Numbered-DistinctIds (suc i) cs n.3,
  )
