-- ===== src/Clock/Closest.antt =====
-- The pair that find_best_divider of Drivers/ClockManagementDxe/clock.c chooses is the closest.
use nintendo_switch_pkg.Prelude.{
  ℕ, zero, suc, ◌+◌, ◌-◌, ◌/◌, ◌%◌, ◌^◌, ◌≤◌, ◌<◌, ◌≡◌, refl, inl, inr, Option, none, some, arith,
  ltb, ◌==◌, Bool-cases, Option-cases,
}
use nintendo_switch_pkg.Clock.Rate.{clk_get_divider, get_rate_from_divider}
use native.Mathlib.Nat.{div-le_self, pow-le-pow_right}
use nintendo_switch_pkg.Clock.Divider.{IsSlowEnough, Best, get_rate-slow, clk_get_divider-Best}
use nintendo_switch_pkg.Clock.BestDivider.{Divided, divided_parent, try_shifts, find_best_divider}
use nintendo_switch_pkg.Clock.RateOrder.{
  get_rate-anti, divided_parent-div, rate_error-sub, lt_int-ltb, is_positive-ltb,
}

-- No divider of a shift below `k` that is slow enough gives a rate above `top`.
abbrev pub Tops : ℕ → ℕ → ℕ → ℕ → ℕ → Type 0
Tops bits parent_rate rate k top =
    (shift d : ℕ)
    → shift < k
    → d < 2 ^ bits
    → IsSlowEnough (parent_rate / 2 ^ shift) rate d
    → get_rate_from_divider (parent_rate / 2 ^ shift) d ≤ top

-- Dividers of the shifts below `k` that are slow enough give rates below `top`.
abbrev pub Under : ℕ → ℕ → ℕ → ℕ → ℕ → Type 0
Under bits parent_rate rate k top =
    (shift d : ℕ)
    → shift < k
    → d < 2 ^ bits
    → IsSlowEnough (parent_rate / 2 ^ shift) rate d
    → get_rate_from_divider (parent_rate / 2 ^ shift) d < top

-- A divider of `bits` bits after a division by a power of two, up to 256; its exact rate does not exceed
-- the one asked for; no divider whose exact rate does not has a higher rate; and none of a smaller power
-- reaches it.
abbrev pub Closest : ℕ → ℕ → ℕ → Option Divided → Type 0
Closest bits parent_rate rate none = Tops bits parent_rate rate 9 0
Closest bits parent_rate rate (some c) =
    (shift : ℕ) × (shift < 9)
    × (c.extra_div ≡ 2 ^ shift)
    × (c.divider < 2 ^ bits)
    × IsSlowEnough (parent_rate / 2 ^ shift) rate c.divider
    × (get_rate_from_divider (parent_rate / 2 ^ shift) c.divider ≤ rate)
    × Tops bits parent_rate rate 9 (get_rate_from_divider (parent_rate / 2 ^ shift) c.divider)
    × Under bits parent_rate rate shift (get_rate_from_divider (parent_rate / 2 ^ shift) c.divider)

module _ (bits parent_rate rate : ℕ) (hb : bits ≤ 31) (hp : parent_rate < 2 ^ 32) (pos : 1 ≤ rate)
    (hr : rate < 2 ^ 31) where
  -- What holds after `k` shifts: the best error is what the rate of the best divider leaves.
  abbrev Kept : ℕ → ℕ → Option Divided → Type 0
  Kept k e none = (e ≡ rate) × Tops bits parent_rate rate k 0
  Kept k e (some c) =
      (shift : ℕ) × (shift < k)
      × (c.extra_div ≡ 2 ^ shift)
      × (c.divider < 2 ^ bits)
      × IsSlowEnough (parent_rate / 2 ^ shift) rate c.divider
      × (get_rate_from_divider (parent_rate / 2 ^ shift) c.divider + e ≡ rate)
      × Tops bits parent_rate rate k (get_rate_from_divider (parent_rate / 2 ^ shift) c.divider)
      × Under bits parent_rate rate shift
          (get_rate_from_divider (parent_rate / 2 ^ shift) c.divider)

  -- No divider that is slow enough at shift `k` comes closer than `e`.
  abbrev NoCloser : ℕ → ℕ → Type 0
  NoCloser k e =
      (d : ℕ)
      → d < 2 ^ bits
      → IsSlowEnough (parent_rate / 2 ^ k) rate d
      → get_rate_from_divider (parent_rate / 2 ^ k) d + e ≤ rate

  Tops-next :
      (k top top' : ℕ)
      → Tops bits parent_rate rate k top
      → top ≤ top'
      → ((d : ℕ)
          → d < 2 ^ bits
          → IsSlowEnough (parent_rate / 2 ^ k) rate d
          → get_rate_from_divider (parent_rate / 2 ^ k) d ≤ top')
      → Tops bits parent_rate rate (k + 1) top'
  Tops-next k top top' tops le here = λ shift d below fits slow. elim (Bool-cases (k == shift)) [
    | inl same ↦ let e : k ≡ shift = ground arith in (rw e at here) d fits slow
    | inr other ↦ omega (arith, tops shift d (ground arith) fits slow)
  ]

  Kept-same : (k e : ℕ) (best : Option Divided) → NoCloser k e → Kept k e best → Kept (k + 1) e best
  Kept-same k e none far (whole, tops) =
      (whole, Tops-next k 0 0 tops (omega arith) λ d fits slow. omega (arith, far d fits slow))
  Kept-same k e (some c) far (shift, below, x, fits, slow, whole, tops, under) = (
    shift,
    omega arith,
    x,
    fits,
    slow,
    whole,
    Tops-next k _ _ tops (omega arith) λ d fits' slow'. omega (arith, far d fits' slow'),
    under,
  )

  Kept-top :
      (k e : ℕ) (best : Option Divided)
      → Kept k e best
      → (top : ℕ) × (top + e ≡ rate) × Tops bits parent_rate rate k top
  Kept-top k e none (whole, tops) = (0, omega arith, tops)
  Kept-top k e (some c) (shift, below, x, fits, slow, whole, tops, under) =
      (get_rate_from_divider (parent_rate / 2 ^ shift) c.divider, whole, tops)

  Kept-closer :
      (k e d : ℕ) (best : Option Divided)
      → Best bits (parent_rate / 2 ^ k) rate (some d)
      → rate - get_rate_from_divider (parent_rate / 2 ^ k) d < e
      → Kept k e best
      → Kept
          (k + 1)
          (rate - get_rate_from_divider (parent_rate / 2 ^ k) d)
          (some (record { divider = d; extra_div = 2 ^ k }))
  Kept-closer k e d best b less kept =
      let (fits, slow, least, le) = b in
      let (top, whole, tops) = Kept-top k e best kept in
      let sum : get_rate_from_divider (parent_rate / 2 ^ k) d
            + (rate - get_rate_from_divider (parent_rate / 2 ^ k) d)
          ≡ rate =
        omega arith in
      (
        k,
        omega arith,
        refl,
        fits,
        slow,
        sum,
        Tops-next k top _ tops (omega arith) λ d' fits' slow'.
            get_rate-anti (parent_rate / 2 ^ k) d d' (least d' slow')
              (omega (arith, pow-le-pow_right {n = 2} (omega arith) {i = bits} {j = 31} hb)),
        λ shift' d' below' fits' slow'. omega (arith, tops shift' d' below' fits' slow'),
      )

  Closest-ended :
      (e : ℕ) (best : Option Divided) → Kept 9 e best → Closest bits parent_rate rate best
  Closest-ended e none (whole, tops) = tops
  Closest-ended e (some c) (shift, below, x, fits, slow, whole, tops, under) =
      (shift, below, x, fits, slow, omega arith, tops, under)

  -- An exact rate is the highest.
  Closest-exact :
      (k : ℕ) (best : Option Divided) → k ≤ 9 → Kept k 0 best → Closest bits parent_rate rate best
  Closest-exact k none le (whole, tops) = absurd (omega arith)
  Closest-exact k (some c) le (shift, below, x, fits, slow, whole, tops, under) = (
    shift,
    omega arith,
    x,
    fits,
    slow,
    omega arith,
    λ shift' d' below' fits' slow'. omega (
      arith,
      get_rate-slow (parent_rate / 2 ^ shift') rate d'
          (omega (arith, div-le_self parent_rate (2 ^ shift')))
          (omega (arith, pow-le-pow_right {n = 2} (omega arith) {i = bits} {j = 31} hb)) slow',
    ),
    under,
  )

  NoCloser-Best :
      (k e d : ℕ)
      → Best bits (parent_rate / 2 ^ k) rate (some d)
      → e ≤ rate - get_rate_from_divider (parent_rate / 2 ^ k) d
      → NoCloser k e
  NoCloser-Best k e d (fits, slow, least, le) far = λ d' fits' slow'. omega (
    arith,
    get_rate-anti (parent_rate / 2 ^ k) d d' (least d' slow')
        (omega (arith, pow-le-pow_right {n = 2} (omega arith) {i = bits} {j = 31} hb)),
  )

  Best-at :
      (k : ℕ)
      → Best bits (parent_rate / 2 ^ k) rate (clk_get_divider bits (parent_rate / 2 ^ k) rate)
  Best-at k =
      clk_get_divider-Best bits (parent_rate / 2 ^ k) rate hb
        (omega (arith, div-le_self parent_rate (2 ^ k))) pos (omega arith)

  Closest-loop :
      (n k e : ℕ) (best : Option Divided)
      → k + n ≡ 9
      → Kept k e best
      → Closest bits parent_rate rate (try_shifts bits parent_rate rate n k e best)
  unfolding try_shifts
  Closest-loop zero k e best whole kept =
      let nine : k ≡ 9 = omega arith in Closest-ended e best (rw nine at kept)
  Closest-loop (suc n) k e best whole kept =
      let (top, sum, _) = Kept-top k e best kept in
      let small : e < 2 ^ 31 = omega arith in
      let plain : divided_parent parent_rate k ≡ parent_rate / 2 ^ k =
        divided_parent-div parent_rate k hp in
      elim (Bool-cases (ltb 0 e)) [
        | inr exact ↦
            let zero_e : e ≡ 0 = ground arith in
            rw (is_positive-ltb e small, exact)
              (Closest-exact k best (omega arith) (rw zero_e at kept))
        | inl more ↦ elim (Option-cases (clk_get_divider bits (parent_rate / 2 ^ k) rate)) [
          | inl missing ↦
              let b : Best bits (parent_rate / 2 ^ k) rate none = rw missing at (Best-at k) in
              rw (is_positive-ltb e small, more, plain, missing)
                (Closest-loop n (k + 1) e best (omega arith)
                  (Kept-same k e best (λ d fits slow. absurd (b d fits slow)) kept))
          | inr (d, found) ↦
              let b : Best bits (parent_rate / 2 ^ k) rate (some d) = rw found at (Best-at k) in
              let le : get_rate_from_divider (parent_rate / 2 ^ k) d ≤ rate = b.3 in
              let err = rate_error-sub (parent_rate / 2 ^ k) rate d hr le in
              let test =
                lt_int-ltb (rate - get_rate_from_divider (parent_rate / 2 ^ k) d) e (omega arith)
                  small in
              elim (Bool-cases (ltb (rate - get_rate_from_divider (parent_rate / 2 ^ k) d) e)) [
                | inl less ↦
                    rw (is_positive-ltb e small, more, plain, found, plain, err, test, less)
                      (Closest-loop n (k + 1) _ _ (omega arith)
                        (Kept-closer k e d best b (ground arith) kept))
                | inr far ↦
                    rw (is_positive-ltb e small, more, plain, found, plain, err, test, far)
                      (Closest-loop n (k + 1) e best (omega arith)
                        (Kept-same k e best (NoCloser-Best k e d b (ground arith)) kept))
              ]
        ]
      ]

-- For rates below 2 ^ 32 and 2 ^ 31, that of the child not 0, and dividers of at most 31 bits: let the pairs
-- be a divider that fits and a second-stage divisor that is a power of two up to 256, and a pair be slow
-- enough if its exact rate, before it is rounded down to a whole number, does not exceed the one asked
-- for; the parent is rounded down after the second-stage divisor. find_best_divider returns a pair that is
-- slow enough; no pair that is slow enough has a higher rounded rate, and none with a smaller power of two
-- reaches it; where it returns -1, no pair that is slow enough has a rounded rate above 0.
pub find_best_divider-Closest :
    (bits parent_rate rate : ℕ)
    → bits ≤ 31
    → parent_rate < 2 ^ 32
    → 1 ≤ rate
    → rate < 2 ^ 31
    → Closest bits parent_rate rate (find_best_divider bits parent_rate rate)
unfolding find_best_divider
find_best_divider-Closest bits parent_rate rate hb hp pos hr =
    let word : rate % 2 ^ 32 ≡ rate = omega arith in
    rw word (
      Closest-loop bits parent_rate rate hb hp pos hr 9 0 rate none refl
        (refl, λ shift d below fits slow. absurd (omega arith)))
