-- ===== src/Hybrid/Cache.antt =====
-- The BM25 index cache of `HybridRetrievalService`: an `OrderedDict`, the oldest entry first.
use mkc.Prelude.{
  ℕ, zero, suc, ◌+◌, ◌-◌, ◌≤◌, none, some, List, [], ◌∷◌, ◌++◌, length, length-append, drop,
  length-drop, ltb, if◌then◌else◌, ◌≡◌, refl, arith, Bool-cases, inl, inr,
}
use mkc.Prelude.Text.{Text, text_eqb_refl}
use mkc.Prelude.Dict.{lookup, insert, erase, lookup-insert}

module _ {S : Type 0} where
  -- `cache.move_to_end(key)`
  unfoldable pub move_to_end : Text → List (Text × S) → List (Text × S)
  move_to_end key cache = elim (lookup key cache) [
    | none ↦ cache
    | some store ↦ erase key cache ++ ((key, store) ∷ [])
  ]

  -- `while len(cache) > max_entries: cache.popitem(last=False)`
  unfoldable pub evict : ℕ → List (Text × S) → List (Text × S)
  evict max_entries [] = []
  evict max_entries (entry ∷ cache) =
      let rest = evict max_entries cache in
      if ltb max_entries (length (entry ∷ cache)) then rest else entry ∷ cache

  -- `cache[key] = store`, `move_to_end` and the eviction.
  unfoldable pub remember : Text → S → ℕ → List (Text × S) → List (Text × S)
  remember key store max_entries cache =
      evict max_entries (move_to_end key (insert key store cache))

  -- Eviction leaves the newest entries, and as many as are allowed.
  pub evict-drop :
      (max_entries : ℕ) (cache : List (Text × S))
      → evict max_entries cache ≡ drop (length cache - max_entries) cache
  unfolding evict
  evict-drop max_entries [] = let e : 0 - max_entries ≡ 0 = omega arith in rw e
  evict-drop max_entries (entry ∷ cache) =
      elim (Bool-cases (ltb max_entries (suc (length cache)))) [
        | inl full ↦
            let e : suc (length cache) - max_entries ≡ suc (length cache - max_entries) =
              ground (arith, full) in
            rw (full, e) (evict-drop max_entries cache)
        | inr room ↦
            let e : suc (length cache) - max_entries ≡ 0 = ground (arith, room) in rw (room, e)
      ]

  pub evict-length :
      (max_entries : ℕ) (cache : List (Text × S)) → length (evict max_entries cache) ≤ max_entries
  evict-length max_entries cache =
      rw (evict-drop max_entries cache)
        (omega (arith, length-drop (length cache - max_entries) cache))

  erase-insert :
      (key : Text) (store : S) (cache : List (Text × S))
      → erase key (insert key store cache) ≡ erase key cache
  unfolding erase insert
  erase-insert key store [] = rw (text_eqb_refl key)
  erase-insert key store ((k, s) ∷ cache) = ground (arith, erase-insert key store cache)

  lookup-insert_self :
      (key : Text) (store : S) (cache : List (Text × S))
      → lookup key (insert key store cache) ≡ some store
  lookup-insert_self key store cache = rw (lookup-insert, text_eqb_refl key)

  drop-append_front :
      (n : ℕ) (xs ys : List (Text × S)) → n ≤ length xs → drop n (xs ++ ys) ≡ drop n xs ++ ys
  drop-append_front zero xs ys h = refl
  drop-append_front (suc n) [] ys h = absurd (omega arith)
  drop-append_front (suc n) (x ∷ xs) ys h = drop-append_front n xs ys (omega arith)

  move_to_end-insert :
      (key : Text) (store : S) (cache : List (Text × S))
      → move_to_end key (insert key store cache) ≡ erase key cache ++ ((key, store) ∷ [])
  unfolding move_to_end
  move_to_end-insert key store cache =
      ground (arith, lookup-insert_self key store cache, erase-insert key store cache)

  -- After an index is stored the cache holds the other entries, without the oldest where there would
  -- be too many, in their order, and the new one behind them.
  remember_lem :
      (key : Text) (store : S) (max_entries : ℕ) (cache : List (Text × S))
      → 1 ≤ max_entries
      → remember key store max_entries cache
        ≡ drop (length (erase key cache) + 1 - max_entries) (erase key cache) ++ ((key, store) ∷ [])
  unfolding remember
  remember_lem key store max_entries cache one =
      let others = erase key cache in
      let last : List (Text × S) = (key, store) ∷ [] in
      rw (move_to_end-insert key store cache, evict-drop, length-append others last)
        (drop-append_front (length others + 1 - max_entries) others last (omega arith))

  -- The cache never holds more entries than it may.
  pub remember-length :
      (key : Text) (store : S) (max_entries : ℕ) (cache : List (Text × S))
      → length (remember key store max_entries cache) ≤ max_entries
  unfolding remember
  remember-length key store max_entries cache = evict-length max_entries _
