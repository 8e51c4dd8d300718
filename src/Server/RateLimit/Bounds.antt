-- ===== src/Server/RateLimit/Bounds.antt =====
-- How many calls a bucket lets through.
use native.Mathlib.Nat.{le_refl, le_trans}
use dropboy.Base.{
  ℕ, Text, text_eq, ◌==◌, if◌then◌else◌, false, List, [], ◌∷◌, ltb, ◌+◌, ◌-◌, ◌*◌, ◌≤◌, Option,
  none, some, ◌≡◌, arith, ==-refl, inl, inr, Bool-cases, ◌&&◌, not, ap, eq_of_==, ==-comm, &&-true,
  &&-false,
}
use dropboy.Base.Dict.{lookup, insert, lookup-insert}
use dropboy.Server.RateLimit.{
  Bucket, RateLimiter, new_rate_limiter, bucket_or_full, bucket_of, refill, allow,
}

-- Calls in the order in which the limiter sees them, each with its time and its key.
abbrev pub Calls : Type 0
Calls = List (ℕ × Text)

-- How many of the calls with the key are allowed.
pub passed : Text → Calls → RateLimiter → ℕ
passed key [] rl = 0
passed key ((now, k) ∷ calls) rl =
    let (rl', allowed) = allow now k rl in
    (if allowed && k == key then 1 else 0) + passed key calls rl'

-- The times do not fall, from `start` to `finish`.
abbrev pub IsBetween : ℕ → ℕ → Calls → Type 0
IsBetween start finish [] = start ≤ finish
IsBetween start finish ((now, _) ∷ calls) = (start ≤ now) × IsBetween now finish calls

-- What a bucket, or a key that has none yet, can still give by `finish`.
held : RateLimiter → ℕ → ℕ → Option Bucket → ℕ
held rl start finish none = rl.burst + (finish - start) * rl.rate
held rl start finish (some b) = b.tokens + (finish - b.last) * rl.rate

abbrev budget : Text → ℕ → ℕ → RateLimiter → ℕ
budget key start finish rl = held rl start finish (lookup key rl.buckets)

abbrev LastBefore : ℕ → Option Bucket → Type 0
LastBefore start none = Unit {0}
LastBefore start (some b) = b.last ≤ start

-- The bucket of the key was last used before `start`.
abbrev IsPast : Text → ℕ → RateLimiter → Type 0
IsPast key start rl = LastBefore start (lookup key rl.buckets)

-- The one bucket that a call writes, and its answer.
allow_lem :
    (now : ℕ) (k : Text) (rl : RateLimiter)
    → let t = refill now rl (bucket_of now k rl) in
      allow now k rl ≡ (
        record rl {
          buckets =
              insert k
                (record { tokens = if ltb t rl.token then t else t - rl.token; last = now })
                rl.buckets;
        },
        not (ltb t rl.token),
      )
unfolding allow
allow_lem now k rl = elim (Bool-cases (ltb (refill now rl (bucket_of now k rl)) rl.token)) [
  | inl low ↦ rw low
  | inr enough ↦ rw enough
]

refill_bounds :
    (now : ℕ) (rl : RateLimiter) (b : Bucket)
    → (refill now rl b ≤ b.tokens + (now - b.last) * rl.rate) × (refill now rl b ≤ rl.burst)
unfolding refill
refill_bounds now rl b = ground arith

start-le-finish : (start finish : ℕ) (calls : Calls) → IsBetween start finish calls → start ≤ finish
start-le-finish start finish [] h = h
start-le-finish start finish ((now, _) ∷ calls) h =
    omega (arith, start-le-finish now finish calls h.1)

-- Time that passes in two parts brings in what it brings in at once.
two_parts : (a b c r : ℕ) → a ≤ b → b ≤ c → (b - a) * r + (c - b) * r ≡ (c - a) * r
two_parts a b c r h k =
    let sum : (b - a) + (c - b) ≡ c - a = omega arith in omega (arith, ap (λ (t : ℕ). t * r) sum)

budget-insert :
    (key : Text) (start finish : ℕ) (b : Bucket) (rl : RateLimiter)
    → budget key start finish (record rl { buckets = insert key b rl.buckets })
      ≡ b.tokens + (finish - b.last) * rl.rate
unfolding held
budget-insert key start finish b rl = rw (lookup-insert, ==-refl)

budget-insert_ne :
    (key k : Text) (start finish : ℕ) (b : Bucket) (rl : RateLimiter)
    → (key == k) ≡ false
    → budget key start finish (record rl { buckets = insert k b rl.buckets })
      ≡ budget key start finish rl
unfolding held
budget-insert_ne key k start finish b rl h = rw (lookup-insert, h)

IsPast-insert :
    (key : Text) (start : ℕ) (b : Bucket) (rl : RateLimiter)
    → b.last ≤ start
    → IsPast key start (record rl { buckets = insert key b rl.buckets })
IsPast-insert key start b rl h = rw (lookup-insert, ==-refl, LastBefore) h

IsPast-insert_ne :
    (key k : Text) (start : ℕ) (b : Bucket) (rl : RateLimiter)
    → (key == k) ≡ false
    → IsPast key start rl
    → IsPast key start (record rl { buckets = insert k b rl.buckets })
IsPast-insert_ne key k start b rl h p = rw (lookup-insert, h, LastBefore) p

held_later :
    (rl : RateLimiter) (start now finish : ℕ) (o : Option Bucket)
    → start ≤ now
    → now ≤ finish
    → LastBefore start o
    → (held rl now finish o ≤ held rl start finish o) × LastBefore now o
unfolding held
held_later rl start now finish none h k p =
    (omega (arith, two_parts start now finish rl.rate h k), tt)
held_later rl start now finish (some b) h k p = (le_refl _, omega arith)

-- A budget does not grow by waiting to make the first call.
budget_later :
    (key : Text) (start now finish : ℕ) (rl : RateLimiter)
    → start ≤ now
    → now ≤ finish
    → IsPast key start rl
    → (budget key now finish rl ≤ budget key start finish rl) × IsPast key now rl
unfolding held
budget_later key start now finish rl h k p =
    held_later rl start now finish (lookup key rl.buckets) h k p

refill-le_held :
    (now finish : ℕ) (rl : RateLimiter) (o : Option Bucket)
    → now ≤ finish
    → LastBefore now o
    → refill now rl (bucket_or_full now rl o) + (finish - now) * rl.rate ≤ held rl now finish o
unfolding held bucket_or_full
refill-le_held now finish rl none k p =
    omega (arith, refill_bounds now rl (record { tokens = rl.burst; last = now }))
refill-le_held now finish rl (some b) k p =
    omega (arith, refill_bounds now rl b, two_parts b.last now finish rl.rate p k)

-- What the bucket holds at a call, with what comes in afterwards, is within the budget.
refill-le_budget :
    (key : Text) (now finish : ℕ) (rl : RateLimiter)
    → now ≤ finish
    → IsPast key now rl
    → refill now rl (bucket_of now key rl) + (finish - now) * rl.rate ≤ budget key now finish rl
unfolding held bucket_of
refill-le_budget key now finish rl k p = refill-le_held now finish rl (lookup key rl.buckets) k p

-- One call of the key against what its bucket holds at the time.
spend :
    (t token n f held : ℕ)
    → n * token ≤ (if ltb t token then t else t - token) + f
    → t + f ≤ held
    → ((if not (ltb t token) then 1 else 0) + n) * token ≤ held
spend t token n f held h k = ground arith

passed-le_budget :
    (key : Text) (start finish : ℕ) (calls : Calls) (rl : RateLimiter)
    → IsBetween start finish calls
    → IsPast key start rl
    → passed key calls rl * rl.token ≤ budget key start finish rl
unfolding passed
passed-le_budget key start finish [] rl h p = omega arith
passed-le_budget key start finish ((now, k) ∷ calls) rl (later, h) p =
    let end = start-le-finish now finish calls h in
    let (less, past) = budget_later key start now finish rl later end p in
    elim (Bool-cases (key == k)) [
      | inl same ↦ rw (← eq_of_== key k same) (
          rw (allow_lem now key rl, ==-refl key, &&-true)
            (le_trans
              (spend (refill now rl (bucket_of now key rl)) rl.token _ ((finish - now) * rl.rate) _
                (rw (budget-insert key now finish (left key) rl) at (
                  passed-le_budget key now finish calls (after key) h
                    (IsPast-insert key now (left key) rl (le_refl _))))
                (refill-le_budget key now finish rl end past))
              less))
      | inr other ↦
          rw (allow_lem now k rl, ==-comm k key, other, &&-false)
            (omega (
              arith,
              less,
              budget-insert_ne key k now finish (left k) rl other,
              passed-le_budget key now finish calls (after k) h
                  (IsPast-insert_ne key k now (left k) rl other past),
            ))
    ]
  where
    left : Text → Bucket
    left j =
        let t = refill now rl (bucket_of now j rl) in
        record { tokens = if ltb t rl.token then t else t - rl.token; last = now }

    after : Text → RateLimiter
    after j = record rl { buckets = insert j (left j) rl.buckets }

-- In any run of calls whose times do not fall, from the first to the last, one key gets at most its
-- burst and what comes in between the two times: no more than (burst + elapsed * rate) / token.
pub passed_bounded :
    (token rate burst start finish : ℕ) (key : Text) (calls : Calls)
    → IsBetween start finish calls
    → passed key calls (new_rate_limiter token rate burst) * token ≤ burst + (finish - start) * rate
unfolding new_rate_limiter held lookup
passed_bounded token rate burst start finish key calls h =
    passed-le_budget key start finish calls (new_rate_limiter token rate burst) h tt
