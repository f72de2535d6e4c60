-- ===== src/Server/MemPool/Sizes.antt =====
-- The sizes of the blocks.
use order_sync.Base.{
  ℕ, zero, suc, ◌+◌, ◌*◌, ◌/◌, ◌^◌, ◌≤◌, ◌<◌, ◌≡◌, ◌⊎◌, inl, inr, refl, ap, ◌∙◌, arith, ltb,
  if◌then◌else◌, le_or_lt, Bool, true, false, Option, none, some, ◌>>=◌, some-inj, none-ne-some,
  sym,
}
use order_sync.Server.MemPool.{MemPool, fit_loop, fit_block_size, take_block, allocate}

-- With fuel enough, the loop counts the bits of the size.
fit_loop_lem :
    (fuel i size : ℕ)
    → size < 2 ^ fuel
    → (k : ℕ) × (fit_loop fuel i size ≡ i + k)
      × (size < 2 ^ k)
      × (((size ≡ 0) × (k ≡ 0)) ⊎ (2 ^ k ≤ 2 * size))
      × (k ≤ fuel)
unfolding fit_loop
fit_loop_lem zero i size h = (0, omega arith, h, inl (omega arith, refl), omega arith)
fit_loop_lem (suc fuel) i size h = elim (le_or_lt size 0) [
  | inl empty ↦ (0, ground (arith, empty), omega arith, inl (omega arith, refl), omega arith)
  | inr more ↦
      let (k, e, low, high, few) = fit_loop_lem fuel (i + 1) (size / 2) (omega (arith, h)) in
      (
        suc k,
        ground (arith, e, more),
        omega (arith, low),
        inr (elim high [
          | inl (none_left, first) ↦ omega (arith, ap (λ j. 2 ^ j) first, more)
          | inr less ↦ omega (arith, less)
        ]),
        omega (arith, few),
      )
]

pow_ten : (k : ℕ) → 2 ^ (10 + k) ≡ 1024 * 2 ^ k
pow_ten zero = omega arith
pow_ten (suc k) =
    ap (λ n. 2 ^ n) {x = 10 + suc k} {y = suc (10 + k)} (omega arith) ∙ omega (arith, pow_ten k)

fit_block_size-eq :
    (size k : ℕ) → fit_loop 32 10 (size / 1024) ≡ 10 + k → fit_block_size size ≡ 1024 * 2 ^ k
unfolding fit_block_size
fit_block_size-eq size k e =
    ap (λ i. 2 ^ (if ltb i 10 then 10 else i)) e ∙ ap (λ i. 2 ^ i) (at_least k) ∙ pow_ten k
  where
    at_least : (k : ℕ) → (if ltb (10 + k) 10 then 10 else 10 + k) ≡ 10 + k
    at_least k = ground arith

-- A block for fewer than 2 ^ 31 bytes: it is larger than what is asked for, it is a power of two of
-- at least 1024 bytes, and but for this least size it has at most twice the bytes.
pub fit_block_size_lem :
    (size : ℕ)
    → size < 2 ^ 31
    → (k : ℕ) × (fit_block_size size ≡ 1024 * 2 ^ k)
      × (size < fit_block_size size)
      × ((fit_block_size size ≡ 1024) ⊎ (fit_block_size size ≤ 2 * size))
fit_block_size_lem size h =
    let (k, e, low, high, few) = fit_loop_lem 32 10 (size / 1024) (omega (arith, h)) in
    let same = fit_block_size-eq size k e in
    (
      k,
      same,
      omega (arith, same, low),
      elim high [
        | inl (small, first) ↦ inl (same ∙ ap (λ j. 1024 * 2 ^ j) first)
        | inr less ↦ inr (omega (arith, same, less))
      ],
    )

sized :
    (b : Bool) (t : Option ℕ × MemPool) (m₁ : MemPool) (block_size : ℕ) {at size : ℕ} {m' : MemPool}
    → ◌≡◌ {A = Option (ℕ × ℕ) × MemPool}
        (if b then (t.0 >>= λ p. some (p, block_size), t.1) else (none, m₁))
        (some (at, size), m')
    → size ≡ block_size
sized true (some p, m₂) m₁ block_size e = sym (ap (λ x. x.1) (some-inj (ap (λ x. x.0) e)))
sized true (none, m₂) m₁ block_size e = absurd (none-ne-some (ap (λ x. x.0) e))
sized false t m₁ block_size e = absurd (none-ne-some (ap (λ x. x.0) e))

abbrev outcome :
    (MemPool → Option ℕ × MemPool) → ℕ → Bool × MemPool → Option (Option (ℕ × ℕ) × MemPool)
outcome first block_size x =
    let t = first x.1 in
    some (if x.0 then (t.0 >>= λ p. some (p, block_size), t.1) else (none, x.1))

chained :
    (r : Option (Bool × MemPool)) (first : MemPool → Option ℕ × MemPool) (block_size : ℕ)
    {at size : ℕ} {m' : MemPool}
    → (r >>= outcome first block_size) ≡ some (some (at, size), m')
    → size ≡ block_size
chained none first block_size e = absurd (none-ne-some e)
chained (some (b, m₁)) first block_size e = sized b (first m₁) m₁ block_size (some-inj e)

-- A block that the pool gives for fewer than 2 ^ 30 bytes: it is as large as what is asked for, and
-- smaller than 2 ^ 31.
pub allocate_fits :
    (address : ℕ → ℕ) (n at size : ℕ) (m m' : MemPool)
    → n < 2 ^ 30
    → allocate address n m ≡ some (some (at, size), m')
    → (n ≤ size) × (size < 2 ^ 31)
unfolding allocate
allocate_fits address n at size m m' h e =
    let (k, same, low, high) = fit_block_size_lem n (omega (arith, h)) in
    let is : size ≡ fit_block_size n = chained _ (take_block address (fit_block_size n)) _ e in
    (
      omega (arith, is, low),
      elim high [ inl least ↦ omega (arith, is, least) | inr twice ↦ omega (arith, is, twice, h) ],
    )
