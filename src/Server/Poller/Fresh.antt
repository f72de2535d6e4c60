-- ===== src/Server/Poller/Fresh.antt =====
-- Which of the kernel's events `VerifyEvents` takes.
use mathlib.Core.List.{Memᴰ}
use order_sync.Base.{
  ℕ, ◌+◌, ◌^◌, ◌≤◌, ◌<◌, ◌≡◌, inl, inr, refl, sym, ap, ◌∙◌, ◌∷◌, some, Bool, true, false, arith,
  if◌then◌else◌, bind_some, leb, eq→==, ne→not_==, lt→not_leb, u32, some-inj, Bool-cases,
}
use order_sync.Server.Poller.{
  PollerObject, Told, PollerUnit, initialize, apply_events, apply_at, with_object, event_data,
  data_slot, data_seq, same_mask, applied, put_object, tell,
}
use order_sync.Server.Poller.Table.{IsKnown, write_same}
use order_sync.Server.Poller.Sound.{IsSound, slot_of}
use order_sync.Server.Poller.History.{Steps}
use order_sync.Server.Poller.Start.{steps-IsSound}
use order_sync.Server.Poller.Events.{verify_events}
use order_sync.Server.Poller.Dispatch.{verify_events_lem, slot_object}
use order_sync.Server.Poller.Process.{All-Mem}

module _ (max n : ℕ) (u v : PollerUnit) (start : initialize max ≡ some u) (small : max ≤ 2 ^ 31)
    (few : n + 1 < 2 ^ 32) (history : Steps n u v) where
  sound : IsSound n v
  sound = steps-IsSound max n u v start small (omega (arith, few)) history

  -- After any history: an event that the kernel was told of and that VerifyEvents takes is of the
  -- object that its slot has now.
  pub verify_events_owner :
      (d : Told)
      → Memᴰ d v.told
      → verify_events d.event_id v ≡ true
      → (v.table (data_slot d.event_id)).poller ≡ some d.object
  verify_events_owner d m e =
      verify_events_lem v d (All-Mem (IsKnown v.max_pollers v.table) d v.told m sound.known) e

  module _ (o i : ℕ) (x : PollerObject) (there : v.objects o ≡ some x)
      (at : x.epslot ≡ some i) where
    -- What the slot's number becomes when the object tells the kernel of it.
    told_seq : (taken : Bool) → ((tell taken o i v).table i).seq ≡ (v.table i).seq + 1
    unfolding tell
    told_seq taken =
        let seq : ℕ = u32 ((v.table i).seq + 1) in
        ap (λ s. s.seq) (write_same v.table i (record (v.table i) { seq = seq }))
        ∙ omega (arith, few, sound.low i)

    -- All that the kernel was told of the slot before is out of date.
    verify_events_stale :
        (taken : Bool) (d : Told)
        → Memᴰ d v.told
        → data_slot d.event_id ≡ i
        → verify_events d.event_id (tell taken o i v) ≡ false
    unfolding verify_events
    verify_events_stale taken d m same =
        let w : PollerUnit = tell taken o i v in
        let h : IsKnown v.max_pollers v.table d =
          All-Mem (IsKnown v.max_pollers v.table) d v.told m sound.known in
        let up : (w.table (data_slot d.event_id)).seq ≡ (v.table (data_slot d.event_id)).seq + 1 =
          ap (λ j. (w.table j).seq) same
          ∙ told_seq taken
          ∙ ap (λ j. (v.table j).seq + 1) (sym same) in
        elim (Bool-cases (leb w.max_pollers (data_slot d.event_id))) [
          | inl out ↦ rw out refl
          | inr in_table ↦
              rw
                (
                  in_table,
                  ne→not_== (data_seq d.event_id) (w.table (data_slot d.event_id)).seq
                      (λ e. omega (arith, e, up, h.past)),
                )
                refl
        ]

    owned : x.owned ≡ true
    owned =
        let held = (sound.of_object o i (ap slot_of there ∙ at)).0 in
        let (y, is, at', own) = slot_object n i o v sound held in
        ap (λ a. a.owned) (some-inj (sym there ∙ is)) ∙ own

    module _ (differ : same_mask x.old_events x.new_events ≡ false) where
      applies :
          (taken : Bool)
          → apply_events taken o v ≡ (
              if taken
              then some (true, put_object o (some (applied x)) (tell true o i v))
              else some (false, tell false o i v))
      unfolding apply_events with_object apply_at
      applies taken =
          bind_some _ there (ap (λ p. apply_at p taken o x v) at ∙ rw (differ, owned) refl)

      -- An attached object asks for other events, and the kernel refuses: ApplyEvents fails, and right
      -- after it VerifyEvents refuses every event that the kernel was ever told of this slot.
      pub apply_events_refused :
          (w : PollerUnit) × (apply_events false o v ≡ some (false, w))
          × (w.told ≡ v.told)
          × ((d : Told)
              → Memᴰ d v.told
              → data_slot d.event_id ≡ i
              → verify_events d.event_id w ≡ false)
      unfolding tell
      apply_events_refused =
          (tell false o i v, applies false, refl, λ d m same. verify_events_stale false d m same)

      -- An attached object asks for other events, and the kernel takes it: ApplyEvents succeeds, and
      -- right after it VerifyEvents takes the event that the kernel has now been told of, and refuses every
      -- event of this slot that it was told of before.
      pub apply_events_taken :
          (w : PollerUnit) × (d : Told) × (apply_events true o v ≡ some (true, w))
          × (w.told ≡ d ∷ v.told)
          × (data_slot d.event_id ≡ i)
          × (verify_events d.event_id w ≡ true)
          × ((b : Told)
              → Memᴰ b v.told
              → data_slot b.event_id ≡ i
              → verify_events b.event_id w ≡ false)
      unfolding tell put_object verify_events
      apply_events_taken =
          let t : PollerUnit = tell true o i v in
          let inside : i < v.max_pollers = (sound.of_object o i (ap slot_of there ∙ at)).1 in
          let seq : ℕ = u32 ((v.table i).seq + 1) in
          let below : i < 2 ^ 32 = omega (arith, inside, sound.small) in
          let slot : data_slot (event_data seq i) ≡ i = omega (arith, below) in
          let number : data_seq (event_data seq i) ≡ seq = omega (arith, below) in
          let now : (t.table (data_slot (event_data seq i))).seq ≡ seq =
            ap (λ j. (t.table j).seq) slot
            ∙ ap (λ s. s.seq) (write_same v.table i (record (v.table i) { seq = seq })) in
          (
            put_object o (some (applied x)) t,
            record { event_id = event_data seq i; object = o },
            applies true,
            refl,
            slot,
            rw
                (lt→not_leb v.max_pollers (data_slot (event_data seq i))
                  (omega (arith, slot, inside)))
                (eq→== _ _ (number ∙ sym now)),
            λ b m same. verify_events_stale true b m same,
          )
