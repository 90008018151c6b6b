-- ===== src/Extraction/Seen.antt =====
-- The loop of `EntityResolver.resolve` with its set of keys, without it.
use mkc.Prelude.{
  true, false, List, [], ◌∷◌, map, keep_if, ◌≡◌, refl, ap, sym, ◌∙◌, arith, Bool-cases, inl, inr,
  ◌↔◌,
}
use mkc.Prelude.Text.{Text, text_eqb_iff}
use mkc.Prelude.Distinct.{member, nub, unseen, unseen-met, unseen-new, unseen-nil}
use mkc.Extraction.{Entity, entity_key, stripped, is_entity, key_eqb, resolve_from, resolve}

pub key_eqb_iff : (j k : Text × Text × Text) → (key_eqb j k ≡ true) ↔ (j ≡ k)
unfolding key_eqb
key_eqb_iff (a, b, c) (d, e, f) = (
  λ h. ground (arith, h, text_eqb_iff a d, text_eqb_iff b e, text_eqb_iff c f),
  λ h. ground (
    arith,
    ap (λ k. k.0) h,
    ap (λ k. k.1) h,
    ap (λ k. k.2) h,
    text_eqb_iff a d,
    text_eqb_iff b e,
    text_eqb_iff c f,
  ),
)

module _ (lower upper : Text → Text) where
  -- The items that are entities, without white space at their ends
  abbrev pub entities_of : List Entity → List Entity
  entities_of items = map stripped (keep_if (is_entity lower upper) items)

  abbrev new_of : List (Text × Text × Text) → List Entity → List Entity
  new_of seen xs =
      keep_if (unseen key_eqb (entity_key lower upper) seen)
        (nub key_eqb (entity_key lower upper) xs)

  new_of-nil : (seen : List (Text × Text × Text)) → new_of seen (entities_of []) ≡ []
  unfolding keep_if nub
  new_of-nil seen = refl

  entities_of-left :
      (item : Entity) (items : List Entity)
      → is_entity lower upper item ≡ false
      → entities_of (item ∷ items) ≡ entities_of items
  unfolding keep_if
  entities_of-left item items h = rw h refl

  entities_of-kept :
      (item : Entity) (items : List Entity)
      → is_entity lower upper item ≡ true
      → entities_of (item ∷ items) ≡ stripped item ∷ entities_of items
  unfolding keep_if
  entities_of-kept item items h = rw h refl

  resolve_from-new :
      (seen : List (Text × Text × Text)) (items : List Entity)
      → resolve_from lower upper seen items ≡ new_of seen (entities_of items)
  unfolding resolve_from
  resolve_from-new seen [] = sym (new_of-nil seen)
  resolve_from-new seen (item ∷ items) =
      let x = stripped item in
      let key = entity_key lower upper x in
      elim (Bool-cases (is_entity lower upper item)) [
        | inr left ↦ rw left (
            resolve_from-new seen items ∙ sym (ap (new_of seen) (entities_of-left item items left)))
        | inl kept ↦ elim (Bool-cases (member key_eqb key seen)) [
          | inl met ↦
              rw (kept, met)
                (resolve_from-new seen items
                  ∙ sym (
                      ap (new_of seen) (entities_of-kept item items kept)
                      ∙ unseen-met key_eqb (entity_key lower upper) key_eqb_iff seen x
                          (entities_of items) met))
          | inr new ↦
              rw (kept, new)
                (ap (◌∷◌ x) (resolve_from-new (key ∷ seen) items)
                  ∙ sym (
                      ap (new_of seen) (entities_of-kept item items kept)
                      ∙ unseen-new key_eqb (entity_key lower upper) key_eqb_iff seen x
                          (entities_of items) new))
        ]
      ]

  pub resolve-nub :
      (items : List Entity)
      → resolve lower upper items ≡ nub key_eqb (entity_key lower upper) (entities_of items)
  unfolding resolve
  resolve-nub items =
      resolve_from-new [] items
      ∙ unseen-nil key_eqb (entity_key lower upper)
          (nub key_eqb (entity_key lower upper) (entities_of items))
