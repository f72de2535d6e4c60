-- ===== src/Server/Poller.antt =====
-- `CPollerUnit` and `CPollerObject` (OrderSyncServer/src/include/poller.h and src/core/poller.cpp of
-- the server): the table of slots, what the kernel is told, and the events that it reports. A pointer
-- into the table is an index, an object is the number of its address, and `none` is a null pointer
-- or an object that is not there. `told` is what `epoll_ctl` has taken so far.
pub mod Table
pub mod Distinct
pub mod Sound
pub mod Slots
pub mod History
pub mod Start
pub mod Dispatch
pub mod Process
pub mod Fresh
pub mod Events
use order_sync.Base.{
  ℕ, ◌+◌, ◌*◌, ◌/◌, ◌%◌, ◌^◌, List, [], ◌∷◌, Option, none, some, Bool, true, false, ◌&&◌, not, u32,
  ltb, leb, ◌==◌, if◌then◌else◌, ◌>>=◌,
}

pub record Slot : Type 0 where
  pub seq : ℕ
  pub poller : Option ℕ
  pub free_list : Option ℕ

pub record Mask : Type 0 where
  pub input : Bool
  pub output : Bool

pub record PollerObject : Type 0 where
  -- none for a negative descriptor
  pub netfd : Option ℕ
  -- whether `ownerUnit` is set
  pub owned : Bool
  pub new_events : Mask
  pub old_events : Mask
  pub epslot : Option ℕ

-- What the kernel keeps of a call of `epoll_ctl`, and the object that made it.
pub record Told : Type 0 where
  pub event_id : ℕ
  pub object : ℕ

pub record PollerUnit : Type 0 where
  pub max_pollers : ℕ
  pub used_pollers : ℕ
  pub free_slot_list : Option ℕ
  pub table : ℕ → Slot
  pub objects : ℕ → Option PollerObject
  pub told : List Told

unfoldable pub write {ℓ} : {A : Type ℓ} → (ℕ → A) → ℕ → A → ℕ → A
write f i a j = if j == i then a else f j

unfoldable pub empty_unit : ℕ → PollerUnit
empty_unit max = record {
  max_pollers = max;
  used_pollers = 0;
  free_slot_list = some 0;
  table = λ i. record {
    seq = 0;
    poller = none;
    free_list = if ltb (i + 1) max then some (i + 1) else none;
  };
  objects = λ o. none;
  told = [];
}

-- `InitializePollerUnit`, with memory for its table. With no slot at all it writes in front of the
-- table.
unfoldable pub initialize : ℕ → Option PollerUnit
initialize max = if max == 0 then none else some (empty_unit max)

-- `AllocEpollSlot`, given the head of the list.
unfoldable pub alloc_slot : Option ℕ → PollerUnit → Option ℕ × PollerUnit
alloc_slot none u = (none, u)
alloc_slot (some i) u = (
  some i,
  record u {
    used_pollers = u32 (u.used_pollers + 1);
    free_slot_list = (u.table i).free_list;
    table = write u.table i (record (u.table i) { free_list = none });
  },
)

unfoldable pub free_slot : ℕ → PollerUnit → PollerUnit
free_slot i u = record u {
  used_pollers = u32 (u.used_pollers + 4294967295);
  free_slot_list = some i;
  table =
      write u.table i
        (record { seq = u32 ((u.table i).seq + 1); poller = none; free_list = u.free_slot_list });
}

unfoldable pub put_object : ℕ → Option PollerObject → PollerUnit → PollerUnit
put_object o x u = record u { objects = write u.objects o x }

-- The 64 bits that the kernel gives back with an event, and EPOLL_DATA_SLOT and EPOLL_DATA_SEQ.
abbrev pub event_data : ℕ → ℕ → ℕ
event_data seq i = (seq * 2 ^ 32 + i) % 2 ^ 64

abbrev pub data_slot : ℕ → ℕ
data_slot d = d % 2 ^ 32

abbrev pub data_seq : ℕ → ℕ
data_seq d = d / 2 ^ 32

-- `++epslot->seq`, and the call of `epoll_ctl` that the kernel takes or refuses.
unfoldable pub tell : Bool → ℕ → ℕ → PollerUnit → PollerUnit
tell taken o i u =
    let seq : ℕ = u32 ((u.table i).seq + 1) in
    record u {
      table = write u.table i (record (u.table i) { seq = seq });
      told =
          if taken then (record { event_id = event_data seq i; object = o }) ∷ u.told else u.told;
    }

abbrev pub same_bool : Bool → Bool → Bool
same_bool true b = b
same_bool false b = not b

abbrev pub same_mask : Mask → Mask → Bool
same_mask a b = same_bool a.input b.input && same_bool a.output b.output

-- What the object asks for is what the kernel has been asked for.
abbrev pub applied : PollerObject → PollerObject
applied x = record x { old_events = x.new_events }

-- `ApplyEvents` of an object, given its slot; true is the result 0. `none` is the use of an
-- `ownerUnit` that is not set.
unfoldable pub apply_at :
    Option ℕ → Bool → ℕ → PollerObject → PollerUnit → Option (Bool × PollerUnit)
apply_at none taken o x u = some (true, u)
apply_at (some i) taken o x u =
    if same_mask x.old_events x.new_events
    then some (true, u)
    else (if x.owned
        then (if taken
            then some (true, put_object o (some (applied x)) (tell true o i u))
            else some (false, tell false o i u))
        else none)

unfoldable pub with_object {ℓ} :
    {A : Type ℓ} → ℕ → PollerUnit → (PollerObject → Option A) → Option A
with_object o u f = do x ← u.objects o; f x

unfoldable pub apply_events : Bool → ℕ → PollerUnit → Option (Bool × PollerUnit)
apply_events taken o u = with_object o u (λ x. apply_at x.epslot taken o x u)

-- The slot of `AttachPoller`, once it is found.
unfoldable pub link : Bool → ℕ → PollerObject → Option ℕ × PollerUnit → Bool × PollerUnit
link taken o x (none, u) = (false, u)
link taken o x (some i, u) =
    let y : PollerObject = record x { epslot = some i } in
    let v : PollerUnit = record u {
      table = write u.table i (record (u.table i) { poller = some o });
    } in
    (taken, tell taken o i (put_object o (some (if taken then applied y else y)) v))

-- `AttachPoller` behind the check of its argument.
unfoldable pub attach_at :
    Option ℕ → Bool → ℕ → PollerObject → PollerUnit → Option (Bool × PollerUnit)
attach_at (some i) taken o x u = apply_at (some i) taken o x u
attach_at none taken o x u =
    if x.owned then some (link taken o x (alloc_slot u.free_slot_list u)) else none

unfoldable pub attach_fd :
    Option ℕ → Bool → ℕ → PollerObject → PollerUnit → Option (Bool × PollerUnit)
attach_fd none taken o x u = some (false, u)
attach_fd (some fd) taken o x u = attach_at x.epslot taken o x u

-- `given` says whether `AttachPoller` gets the unit.
unfoldable pub attach_poller : Bool → Bool → ℕ → PollerUnit → Option (Bool × PollerUnit)
attach_poller given taken o u = with_object o u (λ x.
    if given
    then (if x.owned
        then some (false, u)
        else (let y : PollerObject = record x { owned = true } in
            attach_fd y.netfd taken o y (put_object o (some y) u)))
    else attach_fd x.netfd taken o x u)

unfoldable pub detach_at : Option ℕ → Bool → ℕ → PollerObject → PollerUnit → Option PollerUnit
detach_at none taken o x u = some u
detach_at (some i) taken o x u =
    if x.owned
    then some (
        put_object o (some (record (if taken then applied x else x) { epslot = none }))
          (free_slot i u))
    else none

unfoldable pub detach_poller : Bool → ℕ → PollerUnit → Option PollerUnit
detach_poller taken o u = with_object o u (λ x. detach_at x.epslot taken o x u)

-- The destructor: the object is not there any more.
unfoldable pub destroy_at : Option ℕ → Bool → ℕ → PollerUnit → PollerUnit
destroy_at (some i) true o u = put_object o none (free_slot i u)
destroy_at _ _ o u = put_object o none u

unfoldable pub destroy : ℕ → PollerUnit → Option PollerUnit
destroy o u = with_object o u (λ x. some (destroy_at x.epslot x.owned o u))

-- The constructor.
unfoldable pub new : Bool → Option ℕ → PollerObject
new owned fd = record {
  netfd = fd;
  owned = owned;
  new_events = record { input = false; output = false };
  old_events = record { input = false; output = false };
  epslot = none;
}

abbrev pub enable_input : Bool → PollerObject → PollerObject
enable_input b x = record x { new_events = record x.new_events { input = b } }

abbrev pub enable_output : Bool → PollerObject → PollerObject
enable_output b x = record x { new_events = record x.new_events { output = b } }
