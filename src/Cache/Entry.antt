-- ===== src/Cache/Entry.antt =====
-- internal/cache/interface.go: `CacheEntry`, `CacheConfig` and the default configuration.
use go_exercise.Base.{ℕ, ◌*◌, Bool, true, [], ltb}
use go_exercise.Base.Int.{ℤ, pos, time_sub, second, minute}
use go_exercise.Base.Text.{Text, codes}

pub record CacheEntry (V : Type 0) : Type 0 where
  pub value : V
  pub expires_at : ℕ
  pub created_at : ℕ

module _ {V : Type 0} where
  -- `time.Now().After(e.ExpiresAt)`
  unfoldable pub is_expired : CacheEntry V → ℕ → Bool
  is_expired e now = ltb e.expires_at now

  -- `time.Until(e.ExpiresAt)`
  unfoldable pub entry_ttl : CacheEntry V → ℕ → ℤ
  entry_ttl e now = time_sub e.expires_at now

pub record CacheConfig : Type 0 where
  pub redis_url : Text
  pub redis_password : Text
  pub redis_db : ℤ
  pub default_ttl : ℤ
  pub max_ttl : ℤ
  pub max_size : ℤ
  pub eviction_policy : Text
  pub refresh_interval : ℤ
  pub refresh_workers : ℤ
  pub enable_fallback : Bool
  pub fallback_ttl : ℤ

abbrev pub default_cache_config : CacheConfig
default_cache_config = record {
  redis_url = codes "redis://localhost:6379";
  redis_password = [];
  redis_db = pos 0;
  default_ttl = pos (60 * second);
  max_ttl = pos (24 * 60 * minute);
  max_size = pos 10000;
  eviction_policy = codes "lru";
  refresh_interval = pos (30 * second);
  refresh_workers = pos 5;
  enable_fallback = true;
  fallback_ttl = pos (5 * minute);
}
