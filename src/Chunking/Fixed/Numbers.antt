-- ===== src/Chunking/Fixed/Numbers.antt =====
-- The windows are numbered, whatever the token counts are.
use mkc.Prelude.{ℕ, zero, suc, [], ltb, leb, length, refl, Bool-cases, inl, inr}
use mkc.Prelude.Text.{Text, text_eqb}
use mkc.Chunking.{Config, Estimator, Metadata, make_chunk}
use mkc.Chunking.Fixed.{find_max_end, windows, split}
use mkc.Chunking.Semantic.{Numbered}

module _ (cfg : Config) (est : Estimator) {V : Type 0} (text resource_id : Text)
    (metadata : Metadata V) where
  windows-Numbered :
      (f start i : ℕ) → Numbered resource_id i (windows cfg est text resource_id metadata f start i)
  unfolding windows make_chunk
  windows-Numbered zero start i = tt
  windows-Numbered (suc f) start i = elim (Bool-cases (ltb start (length text))) [
    | inr done ↦ rw done tt
    | inl more ↦
        elim (Bool-cases (leb (length text) (find_max_end cfg est text start cfg.chunk_size))) [
          | inl last ↦ rw (more, last) (refl, refl, refl, tt)
          | inr on ↦ rw (more, on) (refl, refl, refl, windows-Numbered f _ (suc i))
        ]
  ]

  pub split-Numbered : Numbered resource_id 0 (split cfg est text resource_id metadata)
  unfolding split
  split-Numbered = elim (Bool-cases (text_eqb text [])) [
    | inl e ↦ rw e tt
    | inr e ↦ rw e (windows-Numbered (length text) 0 0)
  ]
