-- ===== src/Server/RateLimit.antt =====
-- The token buckets of backend/internal/server/middleware.go. The code counts tokens and seconds in
-- floats. Here a bucket holds a number of units, `token` units are one token, and `rate` units
-- come in for each nanosecond: newRateLimiter(0.2, 5) has a token of 5000000000 units, a rate
-- of 1 and a burst of five tokens. So the amounts are those of exact arithmetic.
pub mod Bounds
use dropboy.Base.{
  long_dash, ℕ, Text, text_eq, codes, ◌==◌, if◌then◌else◌, Bool, true, false, List, [], ◌∷◌, ◌++◌,
  ltb, ◌+◌, ◌-◌, ◌*◌, Option, none, some,
}
use dropboy.Base.Dict.{Dict, lookup, insert}
use dropboy.Server.Http.{Request, Response, Handler, write_json_error}
use dropboy.Server.Auth.{before_colon}

pub record Bucket : Type 0 where
  pub tokens : ℕ
  pub last : ℕ

pub record RateLimiter : Type 0 where
  pub buckets : Dict Bucket
  pub token : ℕ
  pub rate : ℕ
  pub burst : ℕ

unfoldable pub new_rate_limiter : ℕ → ℕ → ℕ → RateLimiter
new_rate_limiter token rate burst = record {
  buckets = [];
  token = token;
  rate = rate;
  burst = burst;
}

-- The bucket that the map has for the key, or a full one.
unfoldable pub bucket_or_full : ℕ → RateLimiter → Option Bucket → Bucket
bucket_or_full now rl none = record { tokens = rl.burst; last = now }
bucket_or_full now rl (some b) = b

unfoldable pub bucket_of : ℕ → Text → RateLimiter → Bucket
unfolding bucket_or_full
bucket_of now key rl = bucket_or_full now rl (lookup key rl.buckets)

-- What has come in since the last call, up to the burst.
unfoldable pub refill : ℕ → RateLimiter → Bucket → ℕ
refill now rl b =
    let tokens = b.tokens + (now - b.last) * rl.rate in
    if ltb rl.burst tokens then rl.burst else tokens

-- rateLimiter.allow, at the time `now`
unfoldable pub allow : ℕ → Text → RateLimiter → RateLimiter × Bool
unfolding bucket_of refill
allow now key rl =
    let tokens = refill now rl (bucket_of now key rl) in
    if ltb tokens rl.token
    then (
      record rl { buckets = insert key (record { tokens = tokens; last = now }) rl.buckets },
      false,
    )
    else (
      record rl {
        buckets = insert key (record { tokens = tokens - rl.token; last = now }) rl.buckets;
      },
      true,
    )

-- The part of an address before its first colon, as strings.Cut gives it.
unfoldable pub source_host : Text → Text
unfolding before_colon
source_host addr = before_colon addr

-- rateLimit: the handler's state stands beside the limiter.
module _ {S A : Type 0} where
  unfoldable pub rate_limit :
      Text → (S → ℕ) → (S → RateLimiter) → (RateLimiter → S → S) → Handler S A → Handler S A
  unfolding source_host
  rate_limit name clock limiter set_limiter next r headers s =
      let key = name ++ (codes "|" ++ source_host r.remote_addr) in
      let (rl, allowed) = allow (clock s) key (limiter s) in
      if allowed then next r headers (set_limiter rl s) else (
        write_json_error 429 (codes "rate limited " ++ (long_dash ++ codes " slow down"))
            (insert (codes "Retry-After") (codes "30") headers),
        set_limiter rl s,
      )
