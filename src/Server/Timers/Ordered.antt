-- ===== src/Server/Timers/Ordered.antt =====
-- The order of the timers in a list, and what `CTimerUnit`'s operations make of it
-- (OrderSyncServer/src/core/timerlist.cpp).
use order_sync.Base.{
  ℕ, ◌+◌, ◌*◌, ◌≤◌, ◌<◌, ◌≡◌, refl, sym, ap, subst, List, [], ◌∷◌, ◌++◌, map, All, All-append,
  arith, ◌==◌, le_or_lt, inl, inr, le→not_ltb, lt→ltb, Bool-cases, ==→eq,
}
use order_sync.Server.Timers.{
  Timer, TimerList, TimerUnit, precision, unlink, unlink_list, disable_timer, set_expiry, put_list,
  attach_timer, get_timer_list, has_list, expire, check_lists,
}

-- The earliest first.
abbrev pub IsSorted : List Timer → Type 0
IsSorted [] = Unit {0}
IsSorted (t ∷ ts) = All (λ s. t.objexp ≤ s.objexp) ts × IsSorted ts

-- A list at the time `now`: no timer expires later than one set now would.
pub record IsOrdered (now : ℕ) (l : TimerList) : Type 0 where
  pub sorted : IsSorted l.tlist
  pub bounded : All (λ t. t.objexp ≤ now + l.timeout * precision) l.tlist
  pub positive : 0 < l.timeout

unlink-All : (P : Timer → Type 0) (k : ℕ) (ts : List Timer) → All P ts → All P (unlink k ts)
unfolding unlink
unlink-All P k [] h = tt
unlink-All P k (t ∷ ts) h = elim (Bool-cases (t.number == k)) [
  | inl same ↦ rw same (unlink-All P k ts h.1)
  | inr differs ↦ rw differs (h.0, unlink-All P k ts h.1)
]

unlink-IsSorted : (k : ℕ) (ts : List Timer) → IsSorted ts → IsSorted (unlink k ts)
unfolding unlink
unlink-IsSorted k [] h = tt
unlink-IsSorted k (t ∷ ts) h = elim (Bool-cases (t.number == k)) [
  | inl same ↦ rw same (unlink-IsSorted k ts h.1)
  | inr differs ↦
      rw differs (unlink-All (λ s. t.objexp ≤ s.objexp) k ts h.0, unlink-IsSorted k ts h.1)
]

append-IsSorted :
    (ts : List Timer) (t : Timer)
    → IsSorted ts
    → All (λ s. s.objexp ≤ t.objexp) ts
    → IsSorted (ts ++ (t ∷ []))
append-IsSorted [] t h b = (tt, tt)
append-IsSorted (s ∷ ts) t h b =
    (All-append (λ r. s.objexp ≤ r.objexp) ts (t ∷ []) h.0 (b.0, tt), append-IsSorted ts t h.1 b.1)

All-later :
    (a b : ℕ) (ts : List Timer) → a ≤ b → All (λ t. t.objexp ≤ a) ts → All (λ t. t.objexp ≤ b) ts
All-later a b [] le h = tt
All-later a b (t ∷ ts) le h = (omega (arith, h.0), All-later a b ts le h.1)

All-after :
    (a b : ℕ) (ts : List Timer) → a < b → All (λ t. b ≤ t.objexp) ts → All (λ t. a < t.objexp) ts
All-after a b [] le h = tt
All-after a b (t ∷ ts) le h = (omega (arith, h.0), All-after a b ts le h.1)

-- The timers of a list are split in order: the notified are due, and, if the list is sorted, none of
-- those that stay is.
pub expire_lem :
    (now : ℕ) (ts : List Timer)
    → IsSorted ts
    → ((expire now ts).0 ++ (expire now ts).1 ≡ ts)
      × All (λ t. t.objexp ≤ now) (expire now ts).0
      × All (λ t. now < t.objexp) (expire now ts).1
unfolding expire
expire_lem now [] h = (refl, tt, tt)
expire_lem now (t ∷ ts) h = elim (le_or_lt t.objexp now) [
  | inl due ↦
      let (same, early, late) = expire_lem now ts h.1 in
      rw (le→not_ltb now t.objexp due) (ap (◌∷◌ t) same, (due, early), late)
  | inr later ↦
      rw (lt→ltb now t.objexp later) (refl, tt, (later, All-after now t.objexp ts later h.0))
]

pub later-IsOrdered : (a b : ℕ) (l : TimerList) → a ≤ b → IsOrdered a l → IsOrdered b l
later-IsOrdered a b l le h = record {
  sorted = h.sorted;
  bounded =
      All-later (a + l.timeout * precision) (b + l.timeout * precision) l.tlist (omega (arith, le))
        h.bounded;
  positive = h.positive;
}

unlink_list-IsOrdered :
    (now k : ℕ) (l : TimerList) → IsOrdered now l → IsOrdered now (unlink_list k l)
unfolding unlink_list
unlink_list-IsOrdered now k l h = record {
  sorted = unlink-IsSorted k l.tlist h.sorted;
  bounded = unlink-All (λ t. t.objexp ≤ now + l.timeout * precision) k l.tlist h.bounded;
  positive = h.positive;
}

put_list-IsOrdered :
    (now to : ℕ) (t : Timer) (l : TimerList)
    → 0 < to
    → IsOrdered now l
    → IsOrdered now (put_list to (set_expiry now to t) l)
unfolding put_list set_expiry
put_list-IsOrdered now to t l some_time h = elim (Bool-cases (l.timeout == to)) [
  | inr differs ↦ rw differs h
  | inl same ↦
      let e : l.timeout ≡ to = ==→eq l.timeout to same in
      let t' : Timer = record t { objexp = now + to * precision } in
      let bounded : All (λ s. s.objexp ≤ now + to * precision) l.tlist =
        subst (λ n. All (λ s. s.objexp ≤ now + n * precision) l.tlist) e h.bounded in
      rw (same, lt→ltb 0 to some_time)
        (record {
          sorted = append-IsSorted l.tlist t' h.sorted bounded;
          bounded =
              All-append (λ s. s.objexp ≤ now + l.timeout * precision) l.tlist (t' ∷ []) h.bounded
                (omega (arith, e), tt);
          positive = h.positive;
        })
]

map-All :
    (P Q : TimerList → Type 0) (f : TimerList → TimerList) (ls : List TimerList)
    → ((l : TimerList) → P l → Q (f l))
    → All P ls
    → All Q (map f ls)
map-All P Q f [] step h = tt
map-All P Q f (l ∷ ls) step h = (step l h.0, map-All P Q f ls step h.1)

-- Every list is ordered.
abbrev pub IsOrderedUnit : ℕ → TimerUnit → Type 0
IsOrderedUnit now u = All (IsOrdered now) u.lists

pub disable_timer-IsOrderedUnit :
    (now k : ℕ) (u : TimerUnit) → IsOrderedUnit now u → IsOrderedUnit now (disable_timer k u)
unfolding disable_timer
disable_timer-IsOrderedUnit now k u h =
    map-All (IsOrdered now) (IsOrdered now) (unlink_list k) u.lists (unlink_list-IsOrdered now k) h

pub attach_timer-IsOrderedUnit :
    (now to : ℕ) (t : Timer) (u : TimerUnit)
    → 0 < to
    → IsOrderedUnit now u
    → IsOrderedUnit now (attach_timer now to t u)
unfolding attach_timer
attach_timer-IsOrderedUnit now to t u some_time h =
    map-All (IsOrdered now) (IsOrdered now) (put_list to (set_expiry now to t))
      (disable_timer t.number u).lists (λ l. put_list-IsOrdered now to t l some_time)
      (disable_timer-IsOrderedUnit now t.number u h)

pub get_timer_list-IsOrderedUnit :
    (now to : ℕ) (u : TimerUnit)
    → 0 < to
    → IsOrderedUnit now u
    → IsOrderedUnit now (get_timer_list to u)
unfolding get_timer_list
get_timer_list-IsOrderedUnit now to u some_time h = elim (Bool-cases (has_list to u.lists)) [
  | inl there ↦ rw there h
  | inr missing ↦ rw missing (record { sorted = tt; bounded = tt; positive = some_time }, h)
]

IsSorted-append : (xs ys : List Timer) → IsSorted (xs ++ ys) → IsSorted ys
IsSorted-append [] ys h = h
IsSorted-append (x ∷ xs) ys h = IsSorted-append xs ys h.1

All-drop : (P : Timer → Type 0) (xs ys : List Timer) → All P (xs ++ ys) → All P ys
All-drop P [] ys h = h
All-drop P (x ∷ xs) ys h = All-drop P xs ys h.1

-- No timer of the list is due.
abbrev pub IsQuiet : ℕ → TimerList → Type 0
IsQuiet now l = All (λ t. now < t.objexp) l.tlist

pub check_lists_lem :
    (now : ℕ) (ls : List TimerList)
    → All (IsOrdered now) ls
    → All (λ t. t.objexp ≤ now) (check_lists now ls).0
      × All (IsQuiet now) (check_lists now ls).1
      × All (IsOrdered now) (check_lists now ls).1
unfolding check_lists
check_lists_lem now [] h = (tt, tt, tt)
check_lists_lem now (l ∷ ls) h =
    let (same, due, quiet) = expire_lem now l.tlist h.0.sorted in
    let (dues, quiets, ordered) = check_lists_lem now ls h.1 in
    (
      All-append (λ t. t.objexp ≤ now) (expire now l.tlist).0 (check_lists now ls).0 due dues,
      (quiet, quiets),
      (
        record {
          sorted =
              IsSorted-append (expire now l.tlist).0 (expire now l.tlist).1
                (subst IsSorted (sym same) h.0.sorted);
          bounded =
              All-drop (λ t. t.objexp ≤ now + l.timeout * precision) (expire now l.tlist).0
                (expire now l.tlist).1
                (subst (All (λ t. t.objexp ≤ now + l.timeout * precision)) (sym same) h.0.bounded);
          positive = h.0.positive;
        },
        ordered,
      ),
    )
