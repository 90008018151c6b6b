-- ===== src/Chunking/Fixed.antt =====
-- ai-service/app/services/chunking/fixed_token_chunker.py: a sliding window of tokens.
mod Search
pub mod Laws
pub mod Numbers
use mkc.Prelude.{
  ℕ, zero, suc, ◌+◌, ◌-◌, ◌/◌, Bool, true, false, List, [], ◌∷◌, length, slice, ltb, leb, min,
  if◌then◌else◌,
}
use mkc.Prelude.Text.{Text, text_eqb}
use mkc.Chunking.{Config, Estimator, Chunk, Metadata, count, make_chunk}

-- The loop `while lo < hi` of the two searches, on fuel: the gap between `lo` and `hi` shrinks in
-- each round. `ok` is the test on the token count.
unfoldable pub bisect : (ℕ → Bool) → ℕ → ℕ → ℕ → ℕ
bisect ok zero lo hi = lo
bisect ok (suc f) lo hi =
    let mid = (lo + hi) / 2 in
    let up = bisect ok f (suc mid) hi in
    let down = bisect ok f lo mid in
    let next = if ok mid then up else down in if ltb lo hi then next else lo

module _ (cfg : Config) (est : Estimator) where
  -- `_find_max_end`
  unfoldable pub find_max_end : Text → ℕ → ℕ → ℕ
  unfolding bisect
  find_max_end text start_pos chunk_size =
      bisect (λ mid. leb (count est (slice start_pos mid text)) chunk_size) (length text + 1)
        (start_pos + 1) (length text + 1)
      - 1

  -- `_find_overlap_chars`
  unfoldable pub find_overlap_chars : Text → ℕ → ℕ → ℕ → ℕ
  unfolding bisect
  find_overlap_chars text start_pos end_pos overlap =
      let max_overlap = end_pos - start_pos in
      let found =
        bisect (λ mid. leb (count est (slice (end_pos - mid) end_pos text)) overlap)
          (max_overlap + 2) 0 (max_overlap + 1)
        - 1 in
      if leb overlap 0 then 0 else if leb end_pos start_pos then 0 else found

  -- `max(0, min(self.config.chunk_overlap, chunk_size - 1))`
  unfoldable pub window_overlap : ℕ
  window_overlap = min cfg.chunk_overlap (cfg.chunk_size - 1)

  -- Where the next window starts.
  unfoldable pub next_start : Text → ℕ → ℕ → ℕ
  unfolding find_overlap_chars window_overlap
  next_start text start_pos end_pos =
      let next_pos = end_pos - find_overlap_chars text start_pos end_pos window_overlap in
      if leb next_pos start_pos then start_pos + 1 else next_pos

  module _ {V : Type 0} (text resource_id : Text) (metadata : Metadata V) where
    -- The loop of `split`, on fuel: `start_pos` grows in each round.
    unfoldable pub windows : ℕ → ℕ → ℕ → List (Chunk V)
    unfolding find_max_end next_start
    windows zero start_pos index = []
    windows (suc f) start_pos index =
        let end_pos = find_max_end text start_pos cfg.chunk_size in
        let chunk =
          make_chunk cfg est (slice start_pos end_pos text) resource_id metadata index start_pos
            end_pos in
        let more = windows f (next_start text start_pos end_pos) (suc index) in
        let rest = if leb (length text) end_pos then chunk ∷ [] else chunk ∷ more in
        if ltb start_pos (length text) then rest else []

    -- `FixedTokenChunker.split`
    unfoldable pub split : List (Chunk V)
    unfolding windows
    split = if text_eqb text [] then [] else windows (length text) 0 0
