-- ===== src/Server/Timers/Waiting.antt =====
-- How long the poller may wait: `ExpireMicroSeconds`.
use order_sync.Base.{ℕ, ◌+◌, ◌-◌, ◌*◌, ◌/◌, ◌≤◌, List, [], ◌∷◌, All, arith, ltb, if◌then◌else◌}
use order_sync.Server.Timers.{
  Timer, TimerList, TimerUnit, earlier, first_expiry, expire_micro_seconds,
}
use order_sync.Server.Timers.Ordered.{IsSorted, IsOrdered, IsOrderedUnit}

-- Every timer of the list stands at `first` or later.
IsNotBefore : ℕ → TimerList → Type 0
IsNotBefore first l = All (λ t. first ≤ t.objexp) l.tlist

earlier_lem :
    (exp first : ℕ) (ts : List Timer)
    → IsSorted ts
    → first ≤ earlier exp ts
    → (first ≤ exp) × All (λ t. first ≤ t.objexp) ts
unfolding earlier
earlier_lem exp first [] h le = (le, tt)
earlier_lem exp first (t ∷ ts) h le =
    let (le_exp, le_head) = both exp first t le in
    (le_exp, (le_head, behind first t.objexp ts le_head h.0))
  where
    both :
        (exp first : ℕ) (t : Timer)
        → first ≤ (if ltb t.objexp exp then t.objexp else exp)
        → (first ≤ exp) × (first ≤ t.objexp)
    both exp first t le = ground (arith, le)

    behind :
        (a b : ℕ) (ts : List Timer)
        → a ≤ b
        → All (λ t. b ≤ t.objexp) ts
        → All (λ t. a ≤ t.objexp) ts
    behind a b [] le h = tt
    behind a b (t ∷ ts) le h = (omega (arith, le, h.0), behind a b ts le h.1)

first_expiry_lem :
    (now first exp : ℕ) (ls : List TimerList)
    → All (IsOrdered now) ls
    → first ≤ first_expiry exp ls
    → (first ≤ exp) × All (IsNotBefore first) ls
unfolding first_expiry IsNotBefore
first_expiry_lem now first exp [] h le = (le, tt)
first_expiry_lem now first exp (l ∷ ls) h le =
    let (le_head, rest) = first_expiry_lem now first (earlier exp l.tlist) ls h.1 le in
    let (le_exp, here) = earlier_lem exp first l.tlist h.0.sorted le_head in (le_exp, (here, rest))

scaled :
    (now first k : ℕ) (ls : List TimerList)
    → k * 1000 ≤ first - now
    → All (IsNotBefore first) ls
    → All (λ l. All (λ t. k * 1000 ≤ t.objexp - now) l.tlist) ls
unfolding IsNotBefore
scaled now first k [] le h = tt
scaled now first k (l ∷ ls) le h = (within l.tlist h.0, scaled now first k ls le h.1)
  where
    within :
        (ts : List Timer) → All (λ t. first ≤ t.objexp) ts → All (λ t. k * 1000 ≤ t.objexp - now) ts
    within [] g = tt
    within (t ∷ ts) g = (omega (arith, le, g.0), within ts g.1)

-- Where every list is ordered, the milliseconds that `ExpireMicroSeconds` gives are at most those
-- asked for, and end no later than any listed timer expires; they are 0 if one is due.
pub expire_micro_seconds_lem :
    (now msec : ℕ) (u : TimerUnit)
    → IsOrderedUnit now u
    → (expire_micro_seconds now msec u ≤ msec)
      × All
          (λ l. All (λ t. expire_micro_seconds now msec u * 1000 ≤ t.objexp - now) l.tlist)
          u.lists
unfolding expire_micro_seconds
expire_micro_seconds_lem now msec u h =
    let first : ℕ = first_expiry (now + msec * 1000) u.lists in
    let (le, late) = first_expiry_lem now first (now + msec * 1000) u.lists h (omega arith) in
    (omega (arith, le), scaled now first ((first - now) / 1000) u.lists (omega arith) late)
