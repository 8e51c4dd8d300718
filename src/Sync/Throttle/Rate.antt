-- ===== src/Sync/Throttle/Rate.antt =====
-- How fast the throttled reader lets bytes through.
use native.Mathlib.Nat.{add-mul, mul-le-mul_right, lt-div-mul-add, le_trans}
use mathlib.Core.Path.{subst}
use dropboy.Base.{
  ℕ, suc, ◌+◌, ◌-◌, ◌*◌, ◌/◌, ◌≤◌, ◌<◌, ltb, true, Bool-cases, inl, inr, some, List, [], ◌∷◌, ◌≡◌,
  refl, ap, ◌∙◌, arith, length, min,
}
use dropboy.Sync.Throttle.{
  Source, ThrottledReader, second, chunk, new_throttled_reader, is_positive, refill, await, read,
  full,
}

-- A monotonic clock, a sleep that lasts at least as long as it is asked to, and a reader that fills
-- no more than the slice.
pub record IsTimed (X : Source) : Type 0 where
  pub time : X.State → ℕ
  pub now : (s : X.State) → ((X.now s).0 ≡ time s) × (time s ≤ time (X.now s).1)
  pub sleep : (d : ℕ) (s : X.State) → time s + d ≤ time (X.sleep d s)
  pub read : (n : ℕ) (s : X.State) → ((X.read n s).0.0 ≤ n) × (time s ≤ time (X.read n s).1)

module _ (X : Source) where
  -- Reads of slices of the lengths, one after the other: the bytes in all.
  unfoldable pub reads : List ℕ → ThrottledReader → X.State → ℕ × ThrottledReader × X.State
  reads [] r s = (0, r, s)
  reads (len ∷ lens) r s =
      let (got, r', t) = read X r len s in let (n, r'', u) = reads lens r' t in (got.0 + n, r'', u)

-- What `d` nanoseconds allow, where `k` calls may each be short by the part of a nanosecond that their
-- sleep leaves out.
abbrev Within : ℕ → ℕ → ℕ → ℕ → ℕ → ℕ → Type 0
Within rate n before d k after = n * second + after ≤ before + d * rate + k * rate

waited :
    (rate need last now later : ℕ)
    → 0 < rate
    → last ≤ now
    → now + need / rate ≤ later
    → (now - last) * rate + need ≤ (later - last) * rate + rate
waited rate need last now later pos h k =
    let short : need < need / rate * rate + rate = lt-div-mul-add pos in
    let grows : (now - last + need / rate) * rate ≤ (later - last) * rate =
      mul-le-mul_right rate (omega arith) in
    omega arith

covered :
    (rate bucket want last now later : ℕ)
    → 0 < rate
    → bucket < want
    → last ≤ now
    → now + (want - bucket) / rate ≤ later
    → want + (now - last) * rate ≤ bucket + (later - last) * rate + rate
covered rate bucket want last now later pos short h k =
    let paid : (now - last) * rate + (want - bucket) ≤ (later - last) * rate + rate =
      waited rate (want - bucket) last now later pos h k in
    omega arith

-- The allowances of a call and of the calls after it add up.
joined :
    (rate same_rate m n k bucket between after last mid end : ℕ)
    → same_rate ≡ rate
    → last ≤ mid
    → mid ≤ end
    → Within rate m bucket (mid - last) 1 between
    → Within same_rate n between (end - mid) k after
    → Within rate (m + n) bucket (end - last) (suc k) after
joined rate same_rate m n k bucket between after last mid end same h g first rest =
    let later : Within rate n between (end - mid) k after =
      subst (λ r. Within r n between (end - mid) k after) same rest in
    let whole : end - last ≡ mid - last + (end - mid) = omega arith in
    let parts : (end - last) * rate ≡ (mid - last) * rate + (end - mid) * rate =
      ap (λ d. d * rate) whole ∙ add-mul (mid - last) (end - mid) rate in
    omega arith

since_le : (last now start end : ℕ) → now ≡ start → last ≤ end → last - now ≤ end - start
since_le last now start end same h = omega arith

in_all :
    (rate n k d e after : ℕ)
    → d ≤ e
    → Within rate n (rate * second) d k after
    → n * second ≤ (second + e + k) * rate
in_all rate n k d e after h spent =
    let longer : d * rate ≤ e * rate = mul-le-mul_right rate h in
    let parts : (second + e + k) * rate ≡ second * rate + e * rate + k * rate =
      add-mul (second + e) k rate ∙ ap (λ x. x + k * rate) (add-mul second e rate) in
    omega arith

is_positive-lt : (n : ℕ) → is_positive n ≡ true → 0 < n
unfolding is_positive
is_positive-lt n h = ground arith

spent :
    (rate n want bucket refilled b asked d : ℕ)
    → n ≤ want
    → want * second ≤ b
    → b + asked * rate ≤ refilled + d * rate + rate
    → refilled ≤ bucket + asked * rate
    → Within rate n bucket d 1 (b - n * second)
spent rate n want bucket refilled b asked d few c paid most =
    let small : n * second ≤ want * second = mul-le-mul_right second few in omega arith

module _ (X : Source) (timed : IsTimed X) where
  woken :
      (d : ℕ) (s : X.State)
      → (timed.time s + d ≤ (X.now (X.sleep d s)).0)
        × ((X.now (X.sleep d s)).0 ≤ timed.time (X.now (X.sleep d s)).1)
  woken d s = let (reads, later) = timed.now (X.sleep d s) in rw reads (timed.sleep d s, later)

  module _ (rate : ℕ) (pos : 0 < rate) where
    -- The bucket that the wait leaves covers the chunk.
    await-Within :
        (bucket want last now : ℕ) (s : X.State)
        → last ≤ now
        → now ≤ timed.time s
        → let ((b, later), t) = await X rate bucket want now s in
          (now ≤ later)
          × (later ≤ timed.time t)
          × (want * second ≤ b)
          × (b + (now - last) * rate ≤ bucket + (later - last) * rate + rate)
    unfolding await
    await-Within bucket want last now s h k = elim (Bool-cases (ltb bucket (want * second))) [
      | inr full ↦ rw full (omega arith, k, ground arith, omega arith)
      | inl short ↦ rw short (
          let (slept, later) = woken ((want * second - bucket) / rate) s in
          (
            omega (arith, slept, timed.now s, h, k),
            later,
            omega arith,
            covered rate bucket (want * second) last now _ pos (ground (arith, short)) h
                (omega (arith, slept, k)),
          ))
    ]

  refill-le :
      (r : ThrottledReader) (now : ℕ) → refill X r now ≤ r.bucket + (now - r.last) * r.bytes_per_sec
  unfolding refill
  refill-le r now = omega arith

  -- One call.
  read-Within :
      (r : ThrottledReader) (len : ℕ) (s : X.State)
      → 0 < r.bytes_per_sec
      → r.last ≤ timed.time s
      → let ((n, e), r', t) = read X r len s in
        (r'.bytes_per_sec ≡ r.bytes_per_sec)
        × (r.last ≤ r'.last)
        × (r'.last ≤ timed.time t)
        × Within r.bytes_per_sec n r.bucket (r'.last - r.last) 1 r'.bucket
  unfolding read
  read-Within r len s pos h =
      let (reads_time, on) = timed.now s in
      let bucket = refill X r (X.now s).0 in
      let want = min len chunk in
      let (a, b, c, d) =
        await-Within r.bytes_per_sec pos bucket want r.last (X.now s).0 (X.now s).1
          (rw reads_time h) (rw reads_time on) in
      let (few, later) =
        timed.read want (await X r.bytes_per_sec bucket want (X.now s).0 (X.now s).1).1 in
      let cap = refill-le r (X.now s).0 in
      let asked : r.last ≤ (X.now s).0 = rw reads_time h in
      (refl, le_trans asked a, le_trans b later, spent _ _ want _ _ _ _ _ few c d cap)

  reads-Within :
      (lens : List ℕ) (r : ThrottledReader) (s : X.State)
      → 0 < r.bytes_per_sec
      → r.last ≤ timed.time s
      → let (n, r', t) = reads X lens r s in
        (r.last ≤ r'.last)
        × (r'.last ≤ timed.time t)
        × Within r.bytes_per_sec n r.bucket (r'.last - r.last) (length lens) r'.bucket
  unfolding reads
  reads-Within [] r s pos h = (omega arith, h, omega arith)
  reads-Within (len ∷ lens) r s pos h =
      let (same, on, later, first) = read-Within r len s pos h in
      let (on', later', rest) =
        reads-Within lens (read X r len s).1 (read X r len s).2 (rw same pos) later in
      (le_trans on on', later', joined _ _ _ _ (length lens) _ _ _ _ _ _ same on on' first rest)

  -- Where the clock is monotonic, the sleep is not too short and the reader below does not overrun the
  -- slice, newThrottledReader with a positive rate returns a throttle; after any Reads of it, the bytes in
  -- all are at most those that the rate allows for one second, for the time since, and for one
  -- nanosecond for each Read.
  pub new_throttled_reader-reads :
      (rate : ℕ) (s : X.State)
      → is_positive rate ≡ true
      → (r : ThrottledReader) × (t : X.State) × (new_throttled_reader X rate s ≡ (some r, t))
        × ((lens : List ℕ)
            → let (n, r', u) = reads X lens r t in
              n * second ≤ (second + (timed.time u - timed.time s) + length lens) * rate)
  unfolding new_throttled_reader
  new_throttled_reader-reads rate s h =
      let (now, on) = timed.now s in
      (
        full rate (X.now s).0,
        (X.now s).1,
        rw h refl,
        λ lens.
            let (a, b, c) =
              reads-Within lens (full rate (X.now s).0) (X.now s).1 (is_positive-lt rate h)
                (rw now on) in
            in_all _ _ _ _ _ _ (since_le _ _ _ _ now b) c,
      )
