-- ===== src/Backoff.antt =====
-- `ExponentialBackoff` of src/ft_system/common/retry.py. Durations are whole numbers of a unit that
-- divides both bounds. `max_exponent` stands for `math.ceil(math.log2(maximum / initial))`.
use Prim.Native.Nat.{min}
use native.Mathlib.Nat.{pow-suc}
use fall2026_18749_project.Prelude.{
  ℕ, zero, suc, ◌+◌, ◌*◌, ◌^◌, ◌≤◌, ◌<◌, ◌≡◌, ◌&&◌, arith, ltb, leb, leb→le, Bool-cases, inl, inr,
}
use fall2026_18749_project.Result.{Result, ok, value_error, guard, ◌>>◌}

pub record Backoff : Type 0 where
  pub initial : ℕ
  pub maximum : ℕ
  pub attempt : ℕ

-- `__init__` and `__post_init__`
unfoldable pub make : ℕ → ℕ → Result Backoff
make initial maximum = do
  guard (ltb 0 initial && ltb 0 maximum) (value_error "backoff values must be positive")
  guard (leb initial maximum) (value_error "initial backoff must not exceed maximum")
  ok (record { initial = initial; maximum = maximum; attempt = 0 })

unfoldable pub next_delay : (ℕ → ℕ → ℕ) → Backoff → ℕ × Backoff
next_delay max_exponent b =
    let exponent = min b.attempt (max_exponent b.maximum b.initial) in
    (min (b.initial * 2 ^ exponent) b.maximum, record b { attempt = b.attempt + 1 })

unfoldable pub reset : Backoff → Backoff
reset b = record b { attempt = 0 }

-- What `make` has checked.
pub record IsBackoff (b : Backoff) : Type 0 where
  pub positive : 0 < b.initial
  pub ordered : b.initial ≤ b.maximum

pub make-IsBackoff : (initial maximum : ℕ) (b : Backoff) → make initial maximum ≡ ok b → IsBackoff b
unfolding make
make-IsBackoff initial maximum b h = ground arith

pow_pos : (n : ℕ) → 1 ≤ 2 ^ n
pow_pos zero = omega arith
pow_pos (suc n) = omega (arith, pow_pos n, pow-suc 2 n)

pow_mono : (m n : ℕ) → m ≤ n → 2 ^ m ≤ 2 ^ n
pow_mono zero n h = pow_pos n
pow_mono (suc m) zero h = absurd (omega arith)
pow_mono (suc m) (suc n) h = omega (arith, pow_mono m n, pow-suc 2 m, pow-suc 2 n)

mul_mono : (a p q : ℕ) → p ≤ q → a * p ≤ a * q
mul_mono a p q h = grind arith

pub scaled_pos : (m k : ℕ) → 1 ≤ suc m * 2 ^ k
scaled_pos m k = omega (arith, mul_mono (suc m) 1 (2 ^ k) (pow_pos k))

pub make_lem :
    (initial maximum : ℕ)
    → 1 ≤ initial
    → initial ≤ maximum
    → make initial maximum ≡ ok (record { initial = initial; maximum = maximum; attempt = 0 })
unfolding make
make_lem initial maximum p q = ground arith

module _ (max_exponent : ℕ → ℕ → ℕ) (b : Backoff) where
  abbrev cap : ℕ
  cap = max_exponent b.maximum b.initial

  -- Every delay of a backoff with valid bounds lies between them.
  delay_bounds :
      IsBackoff b
      → (b.initial ≤ (next_delay max_exponent b).0) × ((next_delay max_exponent b).0 ≤ b.maximum)
  unfolding next_delay
  delay_bounds valid =
      let grown = mul_mono b.initial 1 (2 ^ min b.attempt cap) (pow_pos (min b.attempt cap)) in
      (omega (arith, grown), omega arith)

  -- If the cap on the exponent is large enough to reach the maximum, then each delay is the initial
  -- one doubled once for each failed attempt, cut off at the maximum: the cap on the exponent does
  -- not show.
  pub delay_closed_form :
      b.maximum ≤ b.initial * 2 ^ cap
      → (next_delay max_exponent b).0 ≡ min (b.initial * 2 ^ b.attempt) b.maximum
  unfolding next_delay
  delay_closed_form covers = elim (Bool-cases (leb b.attempt cap)) [
    | inl below ↦
        let same : min b.attempt cap ≡ b.attempt = omega (arith, leb→le _ _ below) in rw same
    | inr above ↦
        let least : min b.attempt cap ≡ cap = ground (arith, above) in
        let more : cap ≤ b.attempt = ground (arith, above) in
        rw least (
          omega (
            arith,
            covers,
            mul_mono b.initial (2 ^ cap) (2 ^ b.attempt) (pow_mono cap b.attempt more),
          ))
  ]

  -- No delay is shorter than the one before it, until a reset.
  pub delay_grows :
      (next_delay max_exponent b).0 ≤ (next_delay max_exponent (next_delay max_exponent b).1).0
  unfolding next_delay
  delay_grows = omega (
    arith,
    mul_mono b.initial (2 ^ min b.attempt cap) (2 ^ min (b.attempt + 1) cap)
        (pow_mono (min b.attempt cap) (min (b.attempt + 1) cap) (omega arith)),
  )
