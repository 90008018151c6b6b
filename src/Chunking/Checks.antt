-- ===== src/Chunking/Checks.antt =====
-- What `ChunkingConfig.__post_init__` accepts.
use mkc.Prelude.{◌≤◌, ◌<◌, List, [], ◌∷◌, true, ◌≡◌, ◌↔◌, arith}
use mkc.Prelude.Text.{Text}
use mkc.Chunking.{
  Config, RawConfig, pos, accepted, ends_empty, check_separators, check_input, check_overlap,
  check_size, post_init,
}

-- The last separator is the empty one.
abbrev EndsEmpty : List Text → Type 0
EndsEmpty [] = ⊥
EndsEmpty (sep ∷ rest) = ends_empty sep rest ≡ true

pub record IsValid (cfg : Config) : Type 0 where
  pub size : 1 ≤ cfg.chunk_size
  pub overlap : cfg.chunk_overlap < cfg.chunk_size
  pub input : 1 ≤ cfg.max_input_chars
  pub last_resort : EndsEmpty cfg.separators

-- The fields as they were given.
abbrev pub raw_of : Config → RawConfig
raw_of cfg = record {
  default_strategy = cfg.default_strategy;
  chunk_size = pos cfg.chunk_size;
  chunk_overlap = pos cfg.chunk_overlap;
  separators = cfg.separators;
  preserve_metadata = cfg.preserve_metadata;
  max_input_chars = pos cfg.max_input_chars;
}

post_init_accepted :
    (raw : RawConfig) (cfg : Config)
    → post_init raw ≡ accepted cfg
    → IsValid cfg × (raw ≡ raw_of cfg)
unfolding post_init check_size check_overlap check_input check_separators
post_init_accepted raw cfg h = ground arith

post_init-raw_of : (cfg : Config) → IsValid cfg → post_init (raw_of cfg) ≡ accepted cfg
unfolding post_init check_size check_overlap check_input check_separators
post_init-raw_of cfg v = ground arith

-- The check accepts as a configuration just what is valid, with the fields that were given.
post_init-IsValid :
    (raw : RawConfig) (cfg : Config)
    → (post_init raw ≡ accepted cfg) ↔ (IsValid cfg × (raw ≡ raw_of cfg))
post_init-IsValid raw cfg = (post_init_accepted raw cfg, λ h. rw h.1 (post_init-raw_of cfg h.0))
