-- ===== src/Sync/Throttle.antt =====
-- backend/internal/sync/throttle.go: the reader that holds an upload to a rate. The bucket, a float64
-- of bytes in the code, is counted exactly, in billionths of a byte.
use dropboy.Base.{
  ℕ, ◌+◌, ◌-◌, ◌*◌, ◌/◌, ◌^◌, ◌%◌, ltb, if◌then◌else◌, Bool, ◌&&◌, Option, none, some, min,
}
use dropboy.Base.Outcome.{Error}
pub mod Rate

-- The reader below the throttle, and the clock: times are nanoseconds of the monotonic clock.
pub record Source : Type 1 where
  pub State : Type 0
  pub now : State → ℕ × State
  pub sleep : ℕ → State → State
  -- Read of a slice of a length: the bytes that were read, and the error beside them
  pub read : ℕ → State → (ℕ × Option Error) × State

pub record ThrottledReader : Type 0 where
  pub bytes_per_sec : ℕ
  -- billionths of a byte
  pub bucket : ℕ
  pub last : ℕ

abbrev pub second : ℕ
second = 1000000000

abbrev pub chunk : ℕ
chunk = 16384

-- Megabits to bytes, as the two's complement of an int64 that wraps around.
unfoldable pub mbps_to_bytes : ℕ → ℕ
mbps_to_bytes mbps =
    let bits = mbps * 1000000 % 2 ^ 64 in
    if ltb bits (2 ^ 63) then bits / 8 else (2 ^ 64 - (2 ^ 64 - bits) / 8) % 2 ^ 64

unfoldable pub is_positive : ℕ → Bool
is_positive n = ltb 0 n && ltb n (2 ^ 63)

-- A new throttle: its bucket holds one second's bytes.
abbrev pub full : ℕ → ℕ → ThrottledReader
full rate now = record { bytes_per_sec = rate; bucket = rate * second; last = now }

module _ (X : Source) where
  -- none is the reader itself, without a throttle.
  unfoldable pub new_throttled_reader : ℕ → X.State → Option ThrottledReader × X.State
  unfolding is_positive
  new_throttled_reader rate s =
      let (now, t) = X.now s in if is_positive rate then (some (full rate now), t) else (none, s)

  -- The bucket at a time, at most one second's bytes.
  unfoldable pub refill : ThrottledReader → ℕ → ℕ
  refill t now = min (t.bucket + (now - t.last) * t.bytes_per_sec) (t.bytes_per_sec * second)

  -- The bucket after the wait for a chunk, and the time.
  unfoldable pub await : ℕ → ℕ → ℕ → ℕ → X.State → (ℕ × ℕ) × X.State
  await rate bucket want now s =
      let (later, t) = X.now (X.sleep ((want * second - bucket) / rate) s) in
      if ltb bucket (want * second) then ((want * second, later), t) else ((bucket, now), s)

  -- Read of a slice of a length
  unfoldable pub read :
      ThrottledReader → ℕ → X.State → (ℕ × Option Error) × ThrottledReader × X.State
  unfolding refill await
  read r len s =
      let (now, t) = X.now s in
      let want = min len chunk in
      let ((bucket, last), u) = await r.bytes_per_sec (refill r now) want now t in
      let ((n, e), v) = X.read want u in
      ((n, e), record r { bucket = bucket - n * second; last = last }, v)
