-- ===== src/Dequeuer/Retry.antt =====
-- The delays between the attempts.
use proofplane.Prelude.{
  ℕ, suc, ◌*◌, ◌%◌, ◌^◌, ◌≤◌, ◌≡◌, refl, ap, ◌∙◌, inl, inr, true, some, arith, ltb, if◌then◌else◌,
  Bool-cases, map_some, le→leb, pos, wrap_i32,
}
use proofplane.Dequeuer.Publishing.{at_most, retry_delay, duration_limit, shorter, times}
use native.Mathlib.Nat.{pow-le-pow_right}

factor-positive : (k : ℕ) → 1 ≤ 2 ^ k
factor-positive k = pow-le-pow_right (omega arith) {i = 0} {j = k} (omega arith)

factor-bound : (k : ℕ) → k ≤ 30 → 2 ^ k ≤ 1_073_741_824
factor-bound k h = pow-le-pow_right (omega arith) {i = k} {j = 30} h

times_monotone : (n a b : ℕ) → a ≤ b → n * a ≤ n * b
times_monotone n a b h = grind arith

-- A power that an `i32` holds.
wrap_i32-small : (n : ℕ) → n ≤ 1_073_741_824 → wrap_i32 n ≡ pos n
wrap_i32-small n h =
    let same : n % 2 ^ 32 ≡ n = omega arith in
    let fits : ltb n (2 ^ 31) ≡ true = ground arith in rw (same, fits) refl

clamp-le : (a : ℕ) → at_most 30 a ≤ 30
clamp-le a = ground arith

shorter-at_most : (x m : ℕ) → shorter (pos x) (pos m) ≡ pos (at_most m x)
shorter-at_most x m = ground arith

times-some : (n k : ℕ) → n * k ≤ duration_limit → times (pos n) (pos k) ≡ some (pos (n * k))
times-some n k h = let fits = le→leb (n * k) duration_limit h in rw fits refl

-- The product is a duration, and the smaller of it and the greatest delay is answered.
retry_delay-some :
    (a n m : ℕ)
    → n * 1_073_741_824 ≤ duration_limit
    → retry_delay (pos a) (pos n) (pos m) ≡ some (pos (at_most m (n * 2 ^ at_most 30 a)))
unfolding retry_delay
retry_delay-some a n m fits =
    let k = 2 ^ at_most 30 a in
    let bound = factor-bound (at_most 30 a) (clamp-le a) in
    let product : n * k ≤ duration_limit = grind (arith, times_monotone n k 1_073_741_824 bound) in
    ap (λ f. map_some (λ d. shorter d (pos m)) (times (pos n) f)) (wrap_i32-small k bound)
    ∙ ap (map_some (λ d. shorter d (pos m))) (times-some n k product)
    ∙ ap some (shorter-at_most (n * k) m)

at_most-bounds : (n m x : ℕ) → n ≤ m → n ≤ x → (n ≤ at_most m x) × (at_most m x ≤ m)
at_most-bounds n m x h l = ground arith

at_most-double : (m x : ℕ) → at_most m (2 * x) ≡ at_most m (2 * at_most m x)
at_most-double m x = ground arith

-- The delay after one more attempt.
abbrev pub next_delay : ℕ → ℕ → ℕ → ℕ
next_delay a d m = if ltb a 30 then at_most m (2 * d) else d

next_factor :
    (a n m : ℕ)
    → at_most m (n * 2 ^ at_most 30 (suc a)) ≡ next_delay a (at_most m (n * 2 ^ at_most 30 a)) m
next_factor a n m = elim (Bool-cases (ltb a 30)) [
  | inl more ↦
      let now : at_most 30 a ≡ a = ground arith in
      let soon : at_most 30 (suc a) ≡ suc a = ground arith in
      let twice : n * 2 ^ suc a ≡ 2 * (n * 2 ^ a) = grind arith in
      rw (more, now, soon, twice) (at_most-double m (n * 2 ^ a))
  | inr held ↦
      let now : at_most 30 a ≡ 30 = ground arith in
      let soon : at_most 30 (suc a) ≡ 30 = ground arith in rw (held, now, soon) refl
]

-- If the initial delay is not negative and at most the greatest delay, and 2^30 times it is a
-- duration, then the delay after no attempt is the initial one; after any number of attempts it
-- lies between the initial and the greatest delay, and after one more attempt it is twice as long
-- but at most the greatest, or the same from 30 attempts on.
pub retry_delay_doubles :
    (a n m : ℕ)
    → n ≤ m
    → n * 1_073_741_824 ≤ duration_limit
    → (retry_delay (pos 0) (pos n) (pos m) ≡ some (pos n))
      × ((d : ℕ) × (retry_delay (pos a) (pos n) (pos m) ≡ some (pos d))
          × (n ≤ d)
          × (d ≤ m)
          × (retry_delay (pos (suc a)) (pos n) (pos m) ≡ some (pos (next_delay a d m))))
retry_delay_doubles a n m h fits =
    let d = at_most m (n * 2 ^ at_most 30 a) in
    let longer : n ≤ n * 2 ^ at_most 30 a =
      grind (arith, times_monotone n 1 (2 ^ at_most 30 a) (factor-positive (at_most 30 a))) in
    let (low, high) = at_most-bounds n m (n * 2 ^ at_most 30 a) h longer in
    let first : at_most m (n * 1) ≡ n = ground arith in
    (
      retry_delay-some 0 n m fits ∙ ap (λ x. some (pos x)) first,
      (
        d,
        retry_delay-some a n m fits,
        low,
        high,
        retry_delay-some (suc a) n m fits ∙ ap (λ x. some (pos x)) (next_factor a n m),
      ),
    )
