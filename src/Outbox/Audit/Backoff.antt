-- ===== src/Outbox/Audit/Backoff.antt =====
-- internal/auditoutbox/dispatcher.go `backoff`.
use Prim.Native.Nat.{min}
use project_management.Base.{
  ℕ, zero, suc, ◌-◌, ◌*◌, ◌^◌, ◌≤◌, ◌<◌, ◌≡◌, ◌∙◌, inl, inr, arith, Bool-cases, ltb, ℤ, pos, negsuc,
}
use project_management.Outbox.Audit.Dispatch.{Dispatcher, backoff, doubled, capped, second}

pow-suc : (n : ℕ) → 2 ^ suc n ≡ 2 * 2 ^ n
pow-suc n = grind arith

regroup : (base p : ℕ) → base * 2 * p ≡ base * (2 * p)
regroup base p = grind arith

-- The loop doubles once for each attempt after the first, and seven times at most.
doubled-pow :
    (left i attempts base : ℕ) → doubled left i attempts base ≡ base * 2 ^ min (attempts - i) left
unfolding doubled
doubled-pow zero i attempts base =
    let e : min (attempts - i) 0 ≡ 0 = omega arith in rw e (omega arith)
doubled-pow (suc left) i attempts base = elim (Bool-cases (ltb i attempts)) [
  | inl more ↦
      let ih = doubled-pow left (suc i) attempts (base * 2) in
      let e : min (attempts - i) (suc left) ≡ suc (min (attempts - suc i) left) = ground arith in
      rw (more, e, pow-suc (min (attempts - suc i) left))
        (ih ∙ regroup base (2 ^ min (attempts - suc i) left))
  | inr done ↦
      let e : min (attempts - i) (suc left) ≡ 0 = ground arith in rw (done, e) (omega arith)
]

pow_pos : (n : ℕ) → 0 < 2 ^ n
pow_pos zero = omega arith
pow_pos (suc n) = rw (pow-suc n) (omega (arith, pow_pos n))

pow_mono : (m n : ℕ) → m ≤ n → 2 ^ m ≤ 2 ^ n
pow_mono zero n h = omega (arith, pow_pos n)
pow_mono (suc m) zero h = absurd (omega arith)
pow_mono (suc m) (suc n) h = rw (pow-suc m, pow-suc n) (omega (arith, pow_mono m n (omega arith)))

abbrev plain : ℕ → ℕ
plain attempts = doubled 7 1 attempts second

plain-eq : (attempts : ℕ) → plain attempts ≡ second * 2 ^ min (attempts - 1) 7
plain-eq attempts = doubled-pow 7 1 attempts second

plain-bounds :
    (attempts more : ℕ)
    → attempts ≤ more
    → (0 < plain attempts) × (plain attempts ≤ 128 * second) × (plain attempts ≤ plain more)
plain-bounds attempts more h =
    let p = pow_pos (min (attempts - 1) 7) in
    let most = pow_mono (min (attempts - 1) 7) 7 (omega arith) in
    let grows = pow_mono (min (attempts - 1) 7) (min (more - 1) 7) (omega arith) in
    rw (plain-eq attempts, plain-eq more)
      (omega (arith, p), omega (arith, most), omega (arith, grows))

capped-bounds :
    (limit : ℤ) (base more : ℕ)
    → 0 < base
    → base ≤ 128 * second
    → base ≤ more
    → (0 < capped limit base)
      × (capped limit base ≤ 128 * second)
      × (capped limit base ≤ capped limit more)
      × ((most : ℕ) → 0 < most → limit ≡ pos most → capped limit base ≤ most)
capped-bounds (pos n) base more p b g =
    (ground arith, ground arith, ground arith, λ most q e. ground arith)
capped-bounds (negsuc n) base more p b g = (p, b, g, λ most q e. cc)

-- A wait is never empty, never longer than 128 seconds or than the configured most, and never shorter
-- after more attempts.
pub backoff-bounds :
    (d : Dispatcher) (attempts more : ℕ)
    → attempts ≤ more
    → (0 < backoff d attempts)
      × (backoff d attempts ≤ 128 * second)
      × (backoff d attempts ≤ backoff d more)
      × ((most : ℕ) → 0 < most → d.max_backoff ≡ pos most → backoff d attempts ≤ most)
unfolding backoff
backoff-bounds d attempts more h =
    let (p, b, g) = plain-bounds attempts more h in
    capped-bounds d.max_backoff (plain attempts) (plain more) p b g
