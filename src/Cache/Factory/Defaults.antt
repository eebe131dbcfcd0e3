-- ===== src/Cache/Factory/Defaults.antt =====
-- Settings that are absent or cannot be read.
use go_exercise.Base.{◌≡◌, ◌⊎◌, refl, Option, none, List, [], ◌∷◌, All, inl, inr}
use go_exercise.Base.Int.{ℤ}
use go_exercise.Base.Text.{Text, codes}
use go_exercise.Base.Number.{parse_int, parse_bool}
use go_exercise.Cache.Entry.{default_cache_config}
use go_exercise.Cache.Factory.{setting, any_text, load_config}

-- A value that no parser takes, or none at all.
abbrev pub IsIgnored : {A : Type 0} → (Text → Option A) → Text → Type 0
IsIgnored parse s = (s ≡ []) ⊎ (parse s ≡ none)

setting_ignored :
    {A : Type 0} (parse : Text → Option A) (before : A) (s : Text)
    → IsIgnored parse s
    → setting parse before s ≡ before
setting_ignored parse before [] h = refl
setting_ignored parse before (c ∷ s) (inl e) = cc
setting_ignored parse before (c ∷ s) (inr bad) = rw (setting, bad) refl

-- The numbers, the durations and the truth value of the configuration.
abbrev pub numbers : List Text
numbers = codes "REDIS_DB" ∷ codes "CACHE_MAX_SIZE" ∷ codes "CACHE_REFRESH_WORKERS" ∷ []

abbrev pub durations : List Text
durations =
    codes "CACHE_DEFAULT_TTL"
    ∷ codes "CACHE_MAX_TTL"
    ∷ codes "CACHE_REFRESH_INTERVAL"
    ∷ codes "CACHE_FALLBACK_TTL"
    ∷ []

abbrev pub texts : List Text
texts = codes "REDIS_URL" ∷ codes "REDIS_PASSWORD" ∷ codes "CACHE_EVICTION_POLICY" ∷ []

-- With each text variable empty, and each other variable empty or not readable as a number, a
-- duration or a truth value, the configuration is the default one: a bad setting is ignored.
pub load_config-default :
    (parse_duration : Text → Option ℤ) (env : Text → Text)
    → All (λ k. env k ≡ []) texts
    → All (λ k. IsIgnored parse_int (env k)) numbers
    → All (λ k. IsIgnored parse_duration (env k)) durations
    → IsIgnored parse_bool (env (codes "CACHE_ENABLE_FALLBACK"))
    → load_config parse_duration env ≡ default_cache_config
unfolding load_config
load_config-default parse_duration env u d t b =
    rw
      (
        setting_ignored any_text default_cache_config.redis_url _ (inl u.0),
        setting_ignored any_text default_cache_config.redis_password _ (inl u.1.0),
        setting_ignored any_text default_cache_config.eviction_policy _ (inl u.1.1.0),
        setting_ignored parse_int default_cache_config.redis_db _ d.0,
        setting_ignored parse_int default_cache_config.max_size _ d.1.0,
        setting_ignored parse_int default_cache_config.refresh_workers _ d.1.1.0,
        setting_ignored parse_duration default_cache_config.default_ttl _ t.0,
        setting_ignored parse_duration default_cache_config.max_ttl _ t.1.0,
        setting_ignored parse_duration default_cache_config.refresh_interval _ t.1.1.0,
        setting_ignored parse_duration default_cache_config.fallback_ttl _ t.1.1.1.0,
        setting_ignored parse_bool default_cache_config.enable_fallback _ b,
      )
      refl
