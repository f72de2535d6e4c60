-- ===== src/Server/Poller/Events.antt =====
-- `VerifyEvents` and `ProcessPollerEvents` (src/core/poller.cpp of the server). What InputNotify,
-- OutputNotify and HangupNotify of the derived classes do is a parameter; the poller's own versions
-- of the first two are below.
use order_sync.Base.{
  ℕ, List, [], ◌∷◌, Option, none, some, Bool, true, false, ◌&&◌, leb, ◌==◌, if◌then◌else◌, ◌>>=◌,
}
use order_sync.Server.Poller.{
  PollerObject, PollerUnit, data_slot, data_seq, put_object, with_object, apply_events,
  enable_input, enable_output,
}

-- An entry of `ep_events`; `taken` is what the kernel says to the ApplyEvents behind it.
pub record EpollEvent : Type 0 where
  pub event_id : ℕ
  pub hangup : Bool
  pub input : Bool
  pub output : Bool
  pub taken : Bool

-- What a notification of an object returns, true for POLLER_SUCC, and what becomes of the unit.
abbrev pub Notify : Type 0
Notify = ℕ → PollerUnit → Bool × PollerUnit

pub record Handlers : Type 0 where
  pub input_notify : Notify
  pub output_notify : Notify
  pub hangup_notify : Notify

unfoldable pub input_of : ℕ → Option PollerObject → PollerUnit → PollerUnit
input_of o none u = u
input_of o (some x) u = put_object o (some (enable_input false x)) u

unfoldable pub output_of : ℕ → Option PollerObject → PollerUnit → PollerUnit
output_of o none u = u
output_of o (some x) u = put_object o (some (enable_output false x)) u

-- `CPollerObject::InputNotify` and `OutputNotify`.
unfoldable pub input_notify : Notify
input_notify o u = (true, input_of o (u.objects o) u)

unfoldable pub output_notify : Notify
output_notify o u = (true, output_of o (u.objects o) u)

-- Whether the event is taken.
unfoldable pub verify_events : ℕ → PollerUnit → Bool
verify_events d u =
    if leb u.max_pollers (data_slot d) then false else data_seq d == (u.table (data_slot d)).seq

abbrev pub holds_object : Option ℕ → ℕ → Bool
holds_object none o = false
holds_object (some p) o = p == o

-- One notification, if the event asks for it, and whether the loop goes on with this event.
unfoldable pub notify : Bool → Notify → ℕ → ℕ → PollerUnit → Bool × PollerUnit
notify false f i o u = (true, u)
notify true f i o u = let (ok, v) = f o u in (holds_object (v.table i).poller o && ok, v)

module _ (h : Handlers) where
  unfoldable pub after_output : EpollEvent → ℕ → Bool × PollerUnit → Option PollerUnit
  after_output e o (false, u) = some u
  after_output e o (true, u) = do r ← apply_events e.taken o u; some r.1

  unfoldable pub after_input : EpollEvent → ℕ → ℕ → Bool × PollerUnit → Option PollerUnit
  after_input e i o (false, u) = some u
  after_input e i o (true, u) = after_output e o (notify e.output h.output_notify i o u)

  unfoldable pub react : EpollEvent → ℕ → ℕ → PollerUnit → Option PollerUnit
  react e i o u =
      if e.hangup
      then some (h.hangup_notify o u).1
      else after_input e i o (notify e.input h.input_notify i o u)

  -- An event that is taken, for what its slot points to; `none` is the use of a null pointer.
  unfoldable pub dispatch : Option ℕ → EpollEvent → ℕ → PollerUnit → Option PollerUnit
  dispatch none e i u = none
  dispatch (some o) e i u =
      with_object o u
        (λ x. react e i o (put_object o (some (record x { new_events = x.old_events })) u))

  unfoldable pub process_event : EpollEvent → PollerUnit → Option PollerUnit
  process_event e u =
      let i : ℕ = data_slot e.event_id in
      if verify_events e.event_id u then dispatch (u.table i).poller e i u else some u

  unfoldable pub process_events : List EpollEvent → PollerUnit → Option PollerUnit
  process_events [] u = some u
  process_events (e ∷ es) u = do v ← process_event e u; process_events es v
