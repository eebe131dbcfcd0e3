-- ===== src/RateLimit/Limiter/Addresses.antt =====
-- `ExtractIP` of internal/ratelimit/limiter.go, and the `net.SplitHostPort` that it calls.
use go_exercise.Base.{
  ℕ, suc, ◌+◌, ◌-◌, ◌≡◌, ◌≢◌, refl, Bool, ◌||◌, Option, none, some, [], ◌∷◌, ◌++◌, arith, ◌==◌,
  if◌then◌else◌, take, take-append_self, drop, All, length,
}
use go_exercise.Base.Text.{Text, has, Lacks, has_absent, has-append}

-- What `ExtractIP` reads of a request; an absent header reads as the empty text.
pub record Origin : Type 0 where
  pub forwarded_for : Text  -- X-Forwarded-For
  pub real_ip : Text  -- X-Real-IP
  pub remote_addr : Text

shift : Option ℕ → Option ℕ
shift none = none
shift (some i) = some (suc i)

index : ℕ → Text → Option ℕ
unfolding shift
index c [] = none
index c (b ∷ s) = if b == c then some 0 else shift (index c s)

last_or : Option ℕ → Bool → Option ℕ
last_or (some i) here = some (suc i)
last_or none here = if here then some 0 else none

last_index : ℕ → Text → Option ℕ
unfolding last_or
last_index c [] = none
last_index c (b ∷ s) = last_or (last_index c s) (b == c)

-- The host of `[host]:port`, the last colon at `i` and the first `]` at `end`.
bracketed_host : Text → ℕ → Option ℕ → Option Text
bracketed_host s i none = none
bracketed_host s i (some end) =
    if end + 1 == i
    then if has b'[' (drop 1 s) || has b']' (drop (end + 1) s)
      then none
      else some (take (end - 1) (drop 1 s))
    else none

-- The host of `host:port`.
plain_host : Text → ℕ → Option Text
plain_host s i = if has b':' (take i s) || has b'[' s || has b']' s then none else some (take i s)

host_at : Text → Option ℕ → Option Text
host_at s none = none
host_at [] (some i) = none
host_at (b ∷ s) (some i) =
    if b == b'[' then bracketed_host (b ∷ s) i (index b']' (b ∷ s)) else plain_host (b ∷ s) i

-- The host that `net.SplitHostPort` finds, `none` for its errors.
unfoldable pub split_host_port : Text → Option Text
unfolding has index last_index bracketed_host plain_host host_at
split_host_port s = host_at s (last_index b':' s)

host_or : Option Text → Text → Text
host_or (some host) s = host
host_or none s = s

-- The two headers, the first that is not empty, and then the address of the connection.
from_headers : Text → Text → Text → Text
unfolding host_or
from_headers (b ∷ xff) xri addr = host_or (split_host_port (b ∷ xff)) (b ∷ xff)
from_headers [] (b ∷ xri) addr = b ∷ xri
from_headers [] [] addr = host_or (split_host_port addr) addr

unfoldable pub extract_ip : Origin → Text
unfolding from_headers
extract_ip r = from_headers r.forwarded_for r.real_ip r.remote_addr

-- No character of a text is a colon or a bracket.
abbrev pub IsPlain : Text → Type 0
IsPlain = All (λ c. (c ≢ b':') × (c ≢ b'[') × (c ≢ b']'))

last_index_absent : (c : ℕ) (s : Text) → Lacks c s → last_index c s ≡ none
unfolding last_index
last_index_absent c [] h = refl
last_index_absent c (b ∷ s) (ne, h) = rw (last_index_absent c s h) (ground arith)

-- A text without a colon is no `host:port`.
no_port : (s : Text) → Lacks b':' s → split_host_port s ≡ none
unfolding split_host_port
no_port [] h = refl
no_port (b ∷ s) h = rw (last_index_absent b':' (b ∷ s) h)

header_whole : (xff xri addr : Text) → xff ≢ [] → Lacks b':' xff → from_headers xff xri addr ≡ xff
unfolding from_headers
header_whole [] xri addr ne h = absurd (ne refl)
header_whole (b ∷ xff) xri addr ne h = rw (no_port (b ∷ xff) h)

-- A request with a forwarding header that holds no colon, such as a chain of two or more IPv4
-- addresses, is counted under the whole text of the header, not under the first address of it.
pub extract_ip_whole_header :
    (r : Origin)
    → r.forwarded_for ≢ []
    → Lacks b':' r.forwarded_for
    → extract_ip r ≡ r.forwarded_for
unfolding extract_ip
extract_ip_whole_header r given h = header_whole r.forwarded_for r.real_ip r.remote_addr given h

IsPlain-Lacks : (s : Text) → IsPlain s → Lacks b':' s × Lacks b'[' s × Lacks b']' s
IsPlain-Lacks [] h = (tt, tt, tt)
IsPlain-Lacks (b ∷ s) (h, hs) = let (x, y, z) = IsPlain-Lacks s hs in ((h.0, x), (h.1, y), (h.2, z))

split_plain :
    (host port : Text)
    → IsPlain host
    → IsPlain port
    → plain_host (host ++ b':' ∷ port) (length host) ≡ some host
unfolding plain_host has
split_plain host port ph pp =
    let (hc, ho, hb) = IsPlain-Lacks host ph in
    let (pc, po, pb) = IsPlain-Lacks port pp in
    let rest = b':' ∷ port in
    ground (
      arith,
      take-append_self host rest,
      has-append b'[' host rest,
      has-append b']' host rest,
      has_absent b':' host hc,
      has_absent b'[' host ho,
      has_absent b']' host hb,
      has_absent b'[' port po,
      has_absent b']' port pb,
    )

last_index-append : (h p : Text) (c : ℕ) → Lacks c p → last_index c (h ++ c ∷ p) ≡ some (length h)
unfolding last_index
last_index-append [] p c l = rw (last_index_absent c p l) (ground arith)
last_index-append (b ∷ h) p c l = rw (last_index-append h p c l)

split_host :
    (host port : Text)
    → IsPlain host
    → IsPlain port
    → split_host_port (host ++ b':' ∷ port) ≡ some host
unfolding split_host_port
split_host [] port ph pp =
    rw (last_index-append [] port b':' (IsPlain-Lacks port pp).0) (split_plain [] port ph pp)
split_host (b ∷ host) port ph pp =
    rw (last_index-append (b ∷ host) port b':' (IsPlain-Lacks port pp).0)
      (ground (arith, split_plain (b ∷ host) port ph pp))

-- A request with neither header, on a connection from `host:port` where the two hold no colon and
-- no bracket is counted under the host.
pub extract_ip_remote_host :
    (r : Origin) (host port : Text)
    → r.forwarded_for ≡ []
    → r.real_ip ≡ []
    → r.remote_addr ≡ host ++ b':' ∷ port
    → IsPlain host
    → IsPlain port
    → extract_ip r ≡ host
unfolding extract_ip from_headers
extract_ip_remote_host r host port no_xff no_xri addr ph pp =
    rw (no_xff, no_xri, addr, from_headers, split_host host port ph pp)
