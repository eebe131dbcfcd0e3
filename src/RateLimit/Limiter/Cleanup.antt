-- ===== src/RateLimit/Limiter/Cleanup.antt =====
-- What `cleanup` and `Stop` do to the clients' entries.
use go_exercise.Base.{
  ℕ, ◌-◌, ◌≤◌, ◌≡◌, refl, Option, none, some, [], ◌∷◌, arith, ltb, if◌then◌else◌, length,
}
use go_exercise.Base.Int.{ℤ, pos, time_add}
use go_exercise.Base.Text.{Text, text_eq_iff}
use go_exercise.Base.Dict.{Dict, find, Distinct}
use go_exercise.RateLimit.Limiter.{negate, IpEntry, RateLimiter, sweep, cleanup}

-- An entry, unless it was last seen before the cutoff.
abbrev pub fresh : ℕ → Option IpEntry → Option IpEntry
fresh cutoff none = none
fresh cutoff (some entry) = if ltb entry.last_seen cutoff then none else some entry

find-sweep :
    (j : Text) (cutoff : ℕ) (m : Dict IpEntry)
    → Distinct m
    → find j (sweep cutoff m) ≡ fresh cutoff (find j m)
unfolding find sweep
find-sweep j cutoff [] d = refl
find-sweep j cutoff ((ip, entry) ∷ m) (new, d) =
    ground (arith, text_eq_iff ip j, find-sweep j cutoff m d, new)

cutoff_eq : (now idle : ℕ) (d : ℤ) → d ≡ pos idle → time_add now (negate d) ≡ now - idle
cutoff_eq now idle d e = rw e (ground arith)

-- Where each client stands once in the map and the idle timeout is not negative: `cleanup` removes
-- exactly the entries whose client was last seen more than the timeout before the time of the
-- cleanup, leaves every other entry and the global bucket as they are, and sets the gauge to the
-- number of entries that are left. (The clock stands at least the timeout after Go's zero time.)
pub cleanup_exact :
    (rl : RateLimiter) (now idle : ℕ) (j : Text)
    → Distinct rl.ip_buckets
    → rl.config.ip_idle_timeout ≡ pos idle
    → idle ≤ now
    → (find j (cleanup rl now).ip_buckets ≡ fresh (now - idle) (find j rl.ip_buckets))
      × ((cleanup rl now).global_bucket ≡ rl.global_bucket)
      × ((cleanup rl now).metrics.ips_tracked ≡ length (cleanup rl now).ip_buckets)
unfolding cleanup
cleanup_exact rl now idle j d timeout late =
    (rw (cutoff_eq now idle _ timeout) (find-sweep j (now - idle) rl.ip_buckets d), refl, refl)
