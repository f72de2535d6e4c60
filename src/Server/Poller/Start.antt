-- ===== src/Server/Poller/Start.antt =====
-- A unit that has been initialised, and what any history makes of it.
use order_sync.Base.{
  ℕ, zero, suc, ◌+◌, ◌^◌, ◌≤◌, ◌<◌, ◌≡◌, inl, inr, refl, sym, ap, ◌∙◌, subst, List, [], ◌∷◌, none,
  some, length, All, arith, lt→ltb, le→not_ltb, eq→==, ne→not_==, if◌then◌else◌, some-inj,
  none-ne-some, eq_or_ne,
}
use order_sync.Server.Poller.{PollerUnit, empty_unit, initialize}
use order_sync.Server.Poller.Table.{Chain, Apart, Distinct, IsFree}
use order_sync.Server.Poller.Sound.{IsSound, IsSound_later}
use order_sync.Server.Poller.History.{Steps, steps-Keeps}

-- Some numbers from one on.
count : ℕ → ℕ → List ℕ
count zero i = []
count (suc k) i = i ∷ count k (suc i)

length-count : (k i : ℕ) → length (count k i) ≡ k
unfolding count
length-count zero i = refl
length-count (suc k) i = ap suc (length-count k (suc i))

count-Apart : (k i j : ℕ) → i < j → Apart i (count k j)
unfolding count
count-Apart zero i j lt = tt
count-Apart (suc k) i j lt = (λ e. omega (arith, e), count-Apart k i (suc j) (omega arith))

count-Distinct : (k i : ℕ) → Distinct (count k i)
unfolding count
count-Distinct zero i = tt
count-Distinct (suc k) i = (count-Apart k i (suc i) (omega arith), count-Distinct k (suc i))

module _ (max : ℕ) where
  count-IsFree : (k i : ℕ) → i + k ≤ max → All (IsFree max (empty_unit max).table) (count k i)
  unfolding count empty_unit
  count-IsFree zero i le = tt
  count-IsFree (suc k) i le = ((omega arith, refl), count-IsFree k (suc i) (omega arith))

  count-Chain :
      (k i : ℕ) → i + suc k ≡ max → Chain (empty_unit max).table (some i) (count (suc k) i)
  unfolding count empty_unit
  count-Chain zero i e = (refl, rw (le→not_ltb (i + 1) max (omega (arith, e))) refl)
  count-Chain (suc k) i e = (
    refl,
    rw (lt→ltb (i + 1) max (omega (arith, e))) (
        subst (λ j. Chain (empty_unit max).table (some j) (count (suc k) (suc i))) {x = suc i}
          {y = i + 1} (omega arith) (count-Chain k (suc i) (omega (arith, e)))),
  )

  all_free : (m : ℕ) → 0 < m → m ≡ max → Chain (empty_unit max).table (some 0) (count m 0)
  all_free zero pos e = absurd (omega arith)
  all_free (suc k) pos e = count-Chain k 0 (omega (arith, e))

  empty_unit-IsSound : 0 < max → max ≤ 2 ^ 31 → IsSound 0 (empty_unit max)
  unfolding empty_unit
  empty_unit-IsSound pos small = record {
    free = count max 0;
    chain = all_free max pos refl;
    distinct = count-Distinct max 0;
    unused = count-IsFree max 0 (omega arith);
    counted = omega (arith, length-count max 0);
    small = small;
    low = λ i. omega arith;
    of_object = λ o i e. absurd (none-ne-some e);
    of_slot = λ o i e. absurd (none-ne-some e);
    owned = λ o. inl refl;
    known = tt;
  }

-- After any history of fewer than 2 ^ 32 operations of objects on a table of at most 2 ^ 31 slots,
-- the free slots are linked without repetition and are no object's, they and the slots in use make up
-- the table, and an object has a slot exactly if the slot has the object; what the kernel was told is
-- either out of date or of the object that the slot has.
pub steps-IsSound :
    (max n : ℕ) (u v : PollerUnit)
    → initialize max ≡ some u
    → max ≤ 2 ^ 31
    → n < 2 ^ 32
    → Steps n u v
    → IsSound n v
unfolding initialize
steps-IsSound max n u v e small few history = elim (eq_or_ne max 0) [
  | inl nothing ↦ absurd (
      none-ne-some
        (sym (ap (λ b. if b then none else some (empty_unit max)) (eq→== max 0 nothing)) ∙ e))
  | inr pos ↦
      let made : empty_unit max ≡ u =
        some-inj
          (sym (ap (λ b. if b then none else some (empty_unit max)) (ne→not_== max 0 pos)) ∙ e) in
      IsSound_later (0 + n) n v (omega arith)
        (steps-Keeps 0 n u v (omega arith)
          (subst (IsSound 0) made (empty_unit-IsSound max (omega (arith, pos)) small))
          history).sound
]
