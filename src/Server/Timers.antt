-- ===== src/Server/Timers.antt =====
-- `CTimerObject`, `CTimerList` and `CTimerUnit` (OrderSyncServer/src/core/timerlist.cpp,
-- OrderSyncServer/src/include/timerlist.h): the lists of timers, one for each timeout. Times are
-- microseconds, timeouts seconds. A timer is known by its number, and stands in one list at most, as
-- its node does. `TimerNotify` is an answer: the timers that are notified, in order.
pub mod Ordered
pub mod Expiry
pub mod Waiting
use order_sync.Base.{
  ℕ, ◌+◌, ◌-◌, ◌*◌, ◌/◌, List, [], ◌∷◌, ◌++◌, Bool, true, false, ◌||◌, map, ltb, ◌==◌,
  if◌then◌else◌,
}

pub record Timer : Type 0 where
  pub number : ℕ
  pub objexp : ℕ

pub record TimerList : Type 0 where
  pub tlist : List Timer
  pub timeout : ℕ

pub record TimerUnit : Type 0 where
  pub pending : List Timer
  pub lists : List TimerList

abbrev pub precision : ℕ
precision = 1000000

abbrev pub new : TimerUnit
new = record { pending = []; lists = [] }

-- `list_del_init` of a timer's node, in the list where it stands.
unfoldable pub unlink : ℕ → List Timer → List Timer
unlink k [] = []
unlink k (t ∷ ts) = let rest = unlink k ts in if t.number == k then rest else t ∷ rest

unfoldable pub unlink_list : ℕ → TimerList → TimerList
unlink_list k l = record l { tlist = unlink k l.tlist }

-- `DisableTimer`.
unfoldable pub disable_timer : ℕ → TimerUnit → TimerUnit
disable_timer k u = record { pending = unlink k u.pending; lists = map (unlink_list k) u.lists }

-- What `AttachTimer` does to the timer that it is called on: `lst->timeout` is `to`.
unfoldable pub set_expiry : ℕ → ℕ → Timer → Timer
set_expiry now to t = if ltb 0 to then record t { objexp = now + to * precision } else t

unfoldable pub put_list : ℕ → Timer → TimerList → TimerList
put_list to t l = if l.timeout == to then record l { tlist = l.tlist ++ (t ∷ []) } else l

-- `AttachTimer` with the list of the timeout `to`, which `GetTimerList` has made.
unfoldable pub attach_timer : ℕ → ℕ → Timer → TimerUnit → TimerUnit
attach_timer now to t u =
    let v = disable_timer t.number u in
    record v { lists = map (put_list to (set_expiry now to t)) v.lists }

unfoldable pub attach_zero_timer : Timer → TimerUnit → TimerUnit
attach_zero_timer t u =
    let v = disable_timer t.number u in record v { pending = v.pending ++ (t ∷ []) }

has_list : ℕ → List TimerList → Bool
has_list to [] = false
has_list to (l ∷ ls) = (l.timeout == to) || has_list to ls

unfoldable pub get_timer_list : ℕ → TimerUnit → TimerUnit
unfolding has_list
get_timer_list to u =
    if has_list to u.lists
    then u
    else record u { lists = record { tlist = []; timeout = to } ∷ u.lists }

-- The timers that `CTimerList::CheckExpired` takes from the front, and those that it leaves.
unfoldable pub expire : ℕ → List Timer → List Timer × List Timer
expire now [] = ([], [])
expire now (t ∷ ts) =
    let r = expire now ts in if ltb now t.objexp then ([], t ∷ ts) else (t ∷ r.0, r.1)

unfoldable pub check_lists : ℕ → List TimerList → List Timer × List TimerList
check_lists now [] = ([], [])
check_lists now (l ∷ ls) =
    let e = expire now l.tlist in
    let r = check_lists now ls in (e.0 ++ r.0, record l { tlist = e.1 } ∷ r.1)

unfoldable pub check_pending : TimerUnit → List Timer × TimerUnit
check_pending u = (u.pending, record u { pending = [] })

-- `CTimerUnit::CheckExpired`; with the time 0 it takes the clock's.
unfoldable pub check_expired : ℕ → ℕ → TimerUnit → List Timer × TimerUnit
check_expired clock now u =
    let time = if now == 0 then clock else now in
    let p = check_pending u in
    let r = check_lists time p.1.lists in (p.0 ++ r.0, record p.1 { lists = r.1 })

earlier : ℕ → List Timer → ℕ
earlier exp [] = exp
earlier exp (t ∷ ts) = if ltb t.objexp exp then t.objexp else exp

first_expiry : ℕ → List TimerList → ℕ
unfolding earlier
first_expiry exp [] = exp
first_expiry exp (l ∷ ls) = first_expiry (earlier exp l.tlist) ls

unfoldable pub expire_micro_seconds : ℕ → ℕ → TimerUnit → ℕ
unfolding first_expiry
expire_micro_seconds now msec u =
    let exp = first_expiry (now + msec * (precision / 1000)) u.lists in
    (exp - now) / (precision / 1000)
