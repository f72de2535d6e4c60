-- ===== src/Server/Poller/Distinct.antt =====
-- Distinct numbers below a bound are at most as many.
use order_sync.Base.{
  ℕ, zero, suc, ◌≤◌, ◌<◌, ◌≡◌, ◌≢◌, inl, inr, subst, List, [], ◌∷◌, length, All, arith, ◌==◌,
  if◌then◌else◌, eq→==, ne→not_==, eq_or_ne,
}
use order_sync.Server.Poller.Table.{Apart, Distinct}

without : ℕ → List ℕ → List ℕ
without k [] = []
without k (x ∷ xs) = if x == k then xs else x ∷ without k xs

without-case :
    (P : List ℕ → Type 0) (k x : ℕ) (xs : List ℕ)
    → (x ≡ k → P xs)
    → (x ≢ k → P (x ∷ without k xs))
    → P (without k (x ∷ xs))
unfolding without
without-case P k x xs here there = elim (eq_or_ne x k) [
  | inl e ↦ rw (eq→== x k e) (here e)
  | inr d ↦ rw (ne→not_== x k d) (there d)
]

length-without : (k : ℕ) (xs : List ℕ) → length xs ≤ suc (length (without k xs))
unfolding without
length-without k [] = omega arith
length-without k (x ∷ xs) =
    without-case (λ ys. length (x ∷ xs) ≤ suc (length ys)) k x xs (λ e. omega arith)
      (λ d. omega (arith, length-without k xs))

All-without : (P : ℕ → Type 0) (k : ℕ) (xs : List ℕ) → All P xs → All P (without k xs)
unfolding without
All-without P k [] h = tt
All-without P k (x ∷ xs) h =
    without-case (All P) k x xs (λ e. h.1) (λ d. (h.0, All-without P k xs h.1))

Distinct-without : (k : ℕ) (xs : List ℕ) → Distinct xs → Distinct (without k xs)
unfolding without
Distinct-without k [] h = tt
Distinct-without k (x ∷ xs) h =
    without-case Distinct k x xs (λ e. h.1)
      (λ d. (All-without (λ j. j ≢ x) k xs h.0, Distinct-without k xs h.1))

below-Apart : (m : ℕ) (xs : List ℕ) → Apart m xs → All (λ j. j < suc m) xs → All (λ j. j < m) xs
below-Apart m [] apart h = tt
below-Apart m (x ∷ xs) apart h = (omega (arith, apart.0, h.0), below-Apart m xs apart.1 h.1)

below-without :
    (m : ℕ) (xs : List ℕ) → Distinct xs → All (λ j. j < suc m) xs → All (λ j. j < m) (without m xs)
unfolding without
below-without m [] distinct h = tt
below-without m (x ∷ xs) distinct h =
    without-case (All (λ j. j < m)) m x xs
      (λ e. below-Apart m xs (subst (λ y. Apart y xs) e distinct.0) h.1)
      (λ d. (omega (arith, d, h.0), below-without m xs distinct.1 h.1))

pub length-Distinct : (m : ℕ) (xs : List ℕ) → Distinct xs → All (λ j. j < m) xs → length xs ≤ m
length-Distinct zero [] distinct h = omega arith
length-Distinct zero (x ∷ xs) distinct h = absurd (omega (arith, h.0))
length-Distinct (suc m) xs distinct h = omega (
  arith,
  length-without m xs,
  length-Distinct m (without m xs) (Distinct-without m xs distinct) (below-without m xs distinct h),
)
