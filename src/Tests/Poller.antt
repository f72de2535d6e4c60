-- ===== src/Tests/Poller.antt =====
-- Runs of the server's poller on a table of two slots.
use mathlib.Core.List.{Memᴰ}
use order_sync.Base.{
  ℕ, ◌+◌, ◌*◌, ◌≤◌, ◌≡◌, refl, List, [], ◌∷◌, Option, none, some, Bool, true, false, arith, length,
}
use order_sync.Server.Poller.{
  PollerUnit, PollerObject, Told, initialize, empty_unit, put_object, new, enable_input,
  enable_output, attach_poller, attach_fd, attach_at, apply_events, destroy, alloc_slot, link, tell,
  data_slot, with_object, write,
}
use order_sync.Server.Poller.Sound.{IsSound}
use order_sync.Server.Poller.Events.{
  EpollEvent, Handlers, process_events, verify_events, input_of, output_of, input_notify,
  output_notify,
}
use order_sync.Server.Poller.History.{
  made, input_set, output_set, attached, destroyed, Steps, stay, next,
}
use order_sync.Server.Poller.Start.{steps-IsSound}
use order_sync.Server.Poller.Dispatch.{AreBounded}
use order_sync.Server.Poller.Process.{IsTold, process_events_total}
use order_sync.Server.Poller.Fresh.{verify_events_owner, apply_events_refused, apply_events_taken}

abbrev from_some : Option PollerUnit → PollerUnit
from_some none = empty_unit 2
from_some (some u) = u

abbrev unit_of : Option (Bool × PollerUnit) → PollerUnit
unit_of none = empty_unit 2
unit_of (some r) = r.1

-- Object 7 is made, waits for input, and is attached.
abbrev one_object : PollerUnit
one_object = put_object 7 (some (new true (some 5))) (empty_unit 2)

abbrev listening : PollerUnit
listening = put_object 7 (some (enable_input true (new true (some 5)))) one_object

abbrev at_work : PollerUnit
at_work = unit_of (attach_poller false true 7 listening)

-- It asks for output too, which the kernel does not know yet.
abbrev object_7 : PollerObject
object_7 = record {
  netfd = some 5;
  owned = true;
  new_events = record { input = true; output = false };
  old_events = record { input = true; output = false };
  epslot = some 0;
}

abbrev asking : PollerUnit
asking = put_object 7 (some (enable_output true object_7)) at_work

history : Steps 4 (empty_unit 2) asking
unfolding empty_unit attach_poller attach_fd attach_at put_object write with_object new alloc_slot
    link tell
history = next (made 7 true (some 5) refl) (
    next (input_set 7 (new true (some 5)) true refl) (
      next (attached {v = at_work} false true 7 true refl)
        (next (output_set 7 object_7 true refl) stay)))

steps-IsSound_example : IsSound 4 asking
unfolding initialize
steps-IsSound_example =
    steps-IsSound 2 4 (empty_unit 2) asking refl (omega arith) (omega arith) history

input_bounded :
    (o : ℕ) (u : PollerUnit) (p : Option PollerObject)
    → u.objects o ≡ p
    → (j : ℕ) × (j ≤ 1) × Steps j u (input_of o p u)
unfolding input_of
input_bounded o u none there = (0, omega arith, stay)
input_bounded o u (some x) there = (1, omega arith, next (input_set o x false there) stay)

output_bounded :
    (o : ℕ) (u : PollerUnit) (p : Option PollerObject)
    → u.objects o ≡ p
    → (j : ℕ) × (j ≤ 1) × Steps j u (output_of o p u)
unfolding output_of
output_bounded o u none there = (0, omega arith, stay)
output_bounded o u (some x) there = (1, omega arith, next (output_set o x false there) stay)

-- An object that hangs up is destroyed.
abbrev gone : ℕ → Option PollerUnit → PollerUnit → PollerUnit
gone o none u = u
gone o (some v) u = v

gone_bounded :
    (o : ℕ) (u : PollerUnit) (p : Option PollerUnit)
    → destroy o u ≡ p
    → (j : ℕ) × (j ≤ 1) × Steps j u (gone o p u)
gone_bounded o u none e = (0, omega arith, stay)
gone_bounded o u (some v) e = (1, omega arith, next (destroyed o e) stay)

abbrev handlers : Handlers
handlers = record {
  input_notify = input_notify;
  output_notify = output_notify;
  hangup_notify = λ o u. (false, gone o (destroy o u) u);
}

handlers-AreBounded : AreBounded 1 handlers
unfolding input_notify output_notify
handlers-AreBounded = record {
  input = λ o u. input_bounded o u (u.objects o) refl;
  output = λ o u. output_bounded o u (u.objects o) refl;
  hangup = λ o u. gone_bounded o u (destroy o u) refl;
}

abbrev told_7 : Told
told_7 = record { event_id = 4294967296; object = 7 }

-- The object hangs up in the first event; then an event of its old slot is still in the batch.
abbrev batch : List EpollEvent
batch =
    (record { event_id = 4294967296; hangup = true; input = false; output = false; taken = true })
    ∷ (record { event_id = 4294967296; hangup = false; input = true; output = false; taken = true })
    ∷ []

told_of : IsTold asking.told 4294967296
unfolding attach_poller attach_fd attach_at put_object write with_object new alloc_slot link tell
    empty_unit
told_of = record { by = told_7; among = Memᴰ.head refl; same = refl }

process_events_total_example :
    (w : PollerUnit) × (process_events handlers batch asking ≡ some w)
    × IsSound (4 + length batch * (1 + 1 + 1)) w
unfolding initialize
process_events_total_example =
    process_events_total 1 handlers handlers-AreBounded 2 4 (empty_unit 2) asking batch refl
      (omega arith) (omega arith) history (told_of, (told_of, tt))

verify_events_owner_example : (asking.table (data_slot told_7.event_id)).poller ≡ some 7
unfolding initialize verify_events attach_poller attach_fd attach_at put_object write with_object
    new alloc_slot link tell empty_unit
verify_events_owner_example =
    verify_events_owner 2 4 (empty_unit 2) asking refl (omega arith) (omega arith) history told_7
      (Memᴰ.head refl) refl

apply_events_refused_example :
    (w : PollerUnit) × (apply_events false 7 asking ≡ some (false, w))
    × (w.told ≡ asking.told)
    × ((d : Told)
        → Memᴰ d asking.told
        → data_slot d.event_id ≡ 0
        → verify_events d.event_id w ≡ false)
unfolding initialize put_object write
apply_events_refused_example =
    apply_events_refused 2 4 (empty_unit 2) asking refl (omega arith) (omega arith) history 7 0
      (enable_output true object_7) refl refl refl

apply_events_taken_example :
    (w : PollerUnit) × (d : Told) × (apply_events true 7 asking ≡ some (true, w))
    × (w.told ≡ d ∷ asking.told)
    × (data_slot d.event_id ≡ 0)
    × (verify_events d.event_id w ≡ true)
    × ((b : Told)
        → Memᴰ b asking.told
        → data_slot b.event_id ≡ 0
        → verify_events b.event_id w ≡ false)
unfolding initialize put_object write
apply_events_taken_example =
    apply_events_taken 2 4 (empty_unit 2) asking refl (omega arith) (omega arith) history 7 0
      (enable_output true object_7) refl refl refl
