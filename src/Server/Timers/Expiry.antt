-- ===== src/Server/Timers/Expiry.antt =====
-- What `CheckExpired` notifies and what it leaves.
use order_sync.Base.{ℕ, ◌≤◌, ◌<◌, ◌≡◌, refl, List, [], ◌∷◌, ◌++◌, All, arith, ne→not_==}
use order_sync.Server.Timers.{
  Timer, TimerList, TimerUnit, disable_timer, attach_timer, attach_zero_timer, get_timer_list,
  check_lists, check_pending, check_expired, new,
}
use order_sync.Server.Timers.Ordered.{
  IsOrdered, later-IsOrdered, IsOrderedUnit, disable_timer-IsOrderedUnit,
  attach_timer-IsOrderedUnit, get_timer_list-IsOrderedUnit, IsQuiet, check_lists_lem,
}

-- What the program does with its timers, and when.
pub data Event : Type 0 where
  list_made : ℕ → Event
  attached : ℕ → ℕ → Timer → Event
  attached_zero : Timer → Event
  disabled : ℕ → Event
  checked : ℕ → Event

pub after : Event → TimerUnit → TimerUnit
after (list_made to) u = get_timer_list to u
after (attached now to t) u = attach_timer now to t u
after (attached_zero t) u = attach_zero_timer t u
after (disabled k) u = disable_timer k u
after (checked now) u = (check_expired now now u).1

pub after_all : List Event → TimerUnit → TimerUnit
after_all [] u = u
after_all (e ∷ es) u = after_all es (after e u)

-- The events come in the order of the clock, which is then `last`, and the timeouts are positive.
pub data IsHistory : ℕ → List Event → ℕ → Type 0 where
  over : (now last : ℕ) → now ≤ last → IsHistory now [] last
  made :
      (now last to : ℕ) (es : List Event)
      → 0 < to
      → IsHistory now es last
      → IsHistory now (list_made to ∷ es) last
  attaches :
      (now last time to : ℕ) (t : Timer) (es : List Event)
      → 0 < to
      → now ≤ time
      → IsHistory time es last
      → IsHistory now (attached time to t ∷ es) last
  attaches_zero :
      (now last : ℕ) (t : Timer) (es : List Event)
      → IsHistory now es last
      → IsHistory now (attached_zero t ∷ es) last
  disables :
      (now last k : ℕ) (es : List Event)
      → IsHistory now es last
      → IsHistory now (disabled k ∷ es) last
  checks :
      (now last time : ℕ) (es : List Event)
      → 0 < time
      → now ≤ time
      → IsHistory time es last
      → IsHistory now (checked time ∷ es) last

check_expired-IsOrderedUnit :
    (clock now : ℕ) (u : TimerUnit)
    → 0 < now
    → IsOrderedUnit now u
    → (due : List Timer) × ((check_expired clock now u).0 ≡ u.pending ++ due)
      × All (λ t. t.objexp ≤ now) due
      × All (IsQuiet now) (check_expired clock now u).1.lists
      × ((check_expired clock now u).1.pending ≡ [])
      × IsOrderedUnit now (check_expired clock now u).1
unfolding check_expired check_pending
check_expired-IsOrderedUnit clock now u started h =
    let (dues, quiets, ordered) = check_lists_lem now u.lists h in
    rw (ne→not_== now 0 (λ e. omega (arith, e, started)))
      ((check_lists now u.lists).0, refl, dues, quiets, refl, ordered)

later-IsOrderedUnit : (a b : ℕ) (u : TimerUnit) → a ≤ b → IsOrderedUnit a u → IsOrderedUnit b u
later-IsOrderedUnit a b u le h = go u.lists h
  where
    go : (ls : List TimerList) → All (IsOrdered a) ls → All (IsOrdered b) ls
    go [] k = tt
    go (l ∷ ls) k = (later-IsOrdered a b l le k.0, go ls k.1)

attach_zero_timer-IsOrderedUnit :
    (now : ℕ) (t : Timer) (u : TimerUnit)
    → IsOrderedUnit now u
    → IsOrderedUnit now (attach_zero_timer t u)
unfolding attach_zero_timer
attach_zero_timer-IsOrderedUnit now t u h = disable_timer-IsOrderedUnit now t.number u h

after_all-IsOrderedUnit :
    (now last : ℕ) (es : List Event) (u : TimerUnit)
    → IsHistory now es last
    → IsOrderedUnit now u
    → IsOrderedUnit last (after_all es u)
unfolding after_all after
after_all-IsOrderedUnit now last _ u (over _ _ le) h = later-IsOrderedUnit now last u le h
after_all-IsOrderedUnit now last _ u (made _ _ to es some_time rest) h =
    after_all-IsOrderedUnit now last es (get_timer_list to u) rest
      (get_timer_list-IsOrderedUnit now to u some_time h)
after_all-IsOrderedUnit now last _ u (attaches _ _ time to t es some_time le rest) h =
    after_all-IsOrderedUnit time last es (attach_timer time to t u) rest
      (attach_timer-IsOrderedUnit time to t u some_time (later-IsOrderedUnit now time u le h))
after_all-IsOrderedUnit now last _ u (attaches_zero _ _ t es rest) h =
    after_all-IsOrderedUnit now last es (attach_zero_timer t u) rest
      (attach_zero_timer-IsOrderedUnit now t u h)
after_all-IsOrderedUnit now last _ u (disables _ _ k es rest) h =
    after_all-IsOrderedUnit now last es (disable_timer k u) rest
      (disable_timer-IsOrderedUnit now k u h)
after_all-IsOrderedUnit now last _ u (checks _ _ time es started le rest) h =
    let (due, notified, early, quiet, empty, ordered) =
      check_expired-IsOrderedUnit time time u started (later-IsOrderedUnit now time u le h) in
    after_all-IsOrderedUnit time last es (check_expired time time u).1 rest ordered

-- After any history of a fresh unit whose timeouts are positive and whose clock does not run back,
-- `CheckExpired` at the last time, past 0, notifies the pending timers and then only timers that are
-- due, and leaves no timer that is due, and none pending.
pub check_expired_lem :
    (clock last : ℕ) (es : List Event)
    → IsHistory 0 es last
    → 0 < last
    → (due : List Timer) × ((check_expired clock last (after_all es new)).0
        ≡ (after_all es new).pending ++ due)
      × All (λ t. t.objexp ≤ last) due
      × All (IsQuiet last) (check_expired clock last (after_all es new)).1.lists
      × ((check_expired clock last (after_all es new)).1.pending ≡ [])
check_expired_lem clock last es history started =
    let (due, notified, early, quiet, empty, ordered) =
      check_expired-IsOrderedUnit clock last (after_all es new) started
        (after_all-IsOrderedUnit 0 last es new history tt) in
    (due, notified, early, quiet, empty)
