-- ===== src/Memory/Turns.antt =====
-- What is saved is in the scope of the searches of the same user.
use mkc.Prelude.{
  true, ◌&&◌, some, List, [], ◌∷◌, All, ◌≡◌, refl, arith, Bool-cases, List-cases, inl, inr,
}
use mkc.Prelude.Text.{Text, codes, nonempty, strip, text_eqb_refl, text_in}
use mkc.Prelude.Order.{Float}
use mkc.Exceptions.{Result-cases}
use mkc.Models.{VectorRecord}
use mkc.Memory.{
  MemoryConfig, MemoryBackend, ChunkInput, conversation_id, user_key, memory_scope, turn_text,
  save_turn, fact_chunks, fact_records, save_user_facts,
}

module _ {F V : Type 0} (fl : Float F) (cfg : MemoryConfig F) (backend : MemoryBackend F V) where
  -- A record that a search for the user and the conversation may find.
  abbrev pub InMemory : Text → Text → VectorRecord F Text → Type 0
  InMemory user_id conversation r =
      (r.user_id ≡ user_id)
      × (text_in r.resource_id (memory_scope cfg user_id conversation).resource_ids ≡ true)

  -- A turn that is saved is one record, with the question and the answer, neither of which is blank,
  -- in the scope in which the context of the conversation is searched.
  save_turn-InMemory :
      (chunk_id record_id user_id conversation question answer reasoning : Text)
      (records : List (VectorRecord F Text))
      → save_turn fl cfg backend chunk_id record_id user_id conversation question answer reasoning
        ≡ some records
      → (r : VectorRecord F Text) × (records ≡ r ∷ [])
        × InMemory user_id conversation r
        × (r.text ≡ turn_text fl cfg backend question answer reasoning)
        × (nonempty (strip question) ≡ true)
        × (nonempty (strip answer) ≡ true)
  unfolding save_turn memory_scope text_in
  save_turn-InMemory chunk_id record_id user_id conversation question answer reasoning records h =
      let resource_id = conversation_id cfg conversation in
      let text = turn_text fl cfg backend question answer reasoning in
      let chunk : ChunkInput = record { id = chunk_id; resource_id = resource_id; text = text } in
      elim (Bool-cases (cfg.enabled && nonempty (strip question) && nonempty (strip answer))) [
        | inr off ↦ absurd (ground (arith, h, off))
        | inl on ↦ elim (Result-cases (backend.embed (chunk ∷ []))) [
          | inl (e, q) ↦ absurd (ground (arith, h, on, q))
          | inr (vectors, q) ↦ elim (List-cases vectors) [
            | inl p ↦ absurd (ground (arith, h, on, q, p))
            | inr (vector, rest, p) ↦ (
              record {
                id = record_id;
                resource_id = resource_id;
                user_id = user_id;
                text = text;
                vector = vector;
                metadata = (codes "memory_type", codes "turn") ∷ [];
              },
              ground (arith, h, on, q, p),
              (refl, ground (arith, text_eqb_refl resource_id)),
              refl,
              ground (arith, on),
              ground (arith, on),
            )
          ]
        ]
      ]

  fact_chunks-user :
      (user_id : Text) (facts : List (Text × Text))
      → All
          (λ c. (c.resource_id ≡ user_key cfg user_id) × (nonempty c.text ≡ true))
          (fact_chunks fl cfg backend user_id facts)
  unfolding fact_chunks
  fact_chunks-user user_id [] = tt
  fact_chunks-user user_id ((id, fact) ∷ facts) = elim (Bool-cases (nonempty (strip fact))) [
    | inl written ↦ rw written ((refl, written), fact_chunks-user user_id facts)
    | inr blank ↦ rw blank (fact_chunks-user user_id facts)
  ]

  fact_records-user :
      (user_id conversation : Text) (chunks : List ChunkInput) (vectors : List (List F))
      → All (λ c. (c.resource_id ≡ user_key cfg user_id) × (nonempty c.text ≡ true)) chunks
      → All
          (λ r. InMemory user_id conversation r × (nonempty r.text ≡ true))
          (fact_records fl cfg backend user_id chunks vectors)
  unfolding fact_records memory_scope text_in
  fact_records-user user_id conversation [] vectors h = tt
  fact_records-user user_id conversation (c ∷ cs) [] h = tt
  fact_records-user user_id conversation (c ∷ cs) (v ∷ vs) ((e, written), h) = (
    ((refl, ground (arith, e, text_eqb_refl (user_key cfg user_id))), written),
    fact_records-user user_id conversation cs vs h,
  )

  -- The facts that are saved are in the scope of every conversation of their user, and not blank.
  save_user_facts-InMemory :
      (user_id conversation : Text) (facts : List (Text × Text))
      (records : List (VectorRecord F Text))
      → save_user_facts fl cfg backend user_id facts ≡ some records
      → All (λ r. InMemory user_id conversation r × (nonempty r.text ≡ true)) records
  unfolding save_user_facts
  save_user_facts-InMemory user_id conversation facts records h =
      let chunks = fact_chunks fl cfg backend user_id facts in
      elim (Bool-cases (cfg.enabled && nonempty facts && nonempty chunks)) [
        | inr off ↦ absurd (ground (arith, h, off))
        | inl on ↦ elim (Result-cases (backend.embed chunks)) [
          | inl (e, q) ↦ absurd (ground (arith, h, on, q))
          | inr (vectors, q) ↦
              let e : records ≡ fact_records fl cfg backend user_id chunks vectors =
                ground (arith, h, on, q) in
              rw e (
                fact_records-user user_id conversation chunks vectors
                  (fact_chunks-user user_id facts))
        ]
      ]
