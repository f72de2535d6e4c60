-- ===== src/Server/Poller/Dispatch.antt =====
-- The events that the kernel reports reach the objects that asked for them.
use order_sync.Base.{
  ℕ, ◌+◌, ◌^◌, ◌≤◌, ◌<◌, ◌≡◌, inl, inr, refl, sym, ap, ◌∙◌, Option, none, some, Bool, true, false,
  ◌&&◌, arith, leb, ◌==◌, ==→eq, if◌then◌else◌, Bool-cases, bind_some, none-ne-some, true-ne-false,
}
use order_sync.Server.Poller.{
  PollerObject, Told, PollerUnit, put_object, apply_events, apply_at, with_object, data_slot,
  data_seq, same_mask, applied, tell,
}
use order_sync.Server.Poller.Table.{IsKnown}
use order_sync.Server.Poller.Sound.{IsSound, Keeps, slot_of}
use order_sync.Server.Poller.History.{
  Steps, steps-Keeps, Keeps_trans, Keeps_later, Keeps_refl, apply_events-Keeps,
}
use order_sync.Server.Poller.Events.{
  EpollEvent, Notify, Handlers, verify_events, holds_object, notify, after_output, after_input,
  react,
}

-- An event that is taken is of the object that its slot has.
pub verify_events_lem :
    (u : PollerUnit) (d : Told)
    → IsKnown u.max_pollers u.table d
    → verify_events d.event_id u ≡ true
    → (u.table (data_slot d.event_id)).poller ≡ some d.object
unfolding verify_events
verify_events_lem u d h e = elim (Bool-cases (leb u.max_pollers (data_slot d.event_id))) [
  | inl out ↦ absurd (true-ne-false (sym e ∙ rw out refl))
  | inr in_table ↦ h.present (
      ==→eq (data_seq d.event_id) (u.table (data_slot d.event_id)).seq (sym (rw in_table refl) ∙ e))
]

-- An object that a slot has is there, with its unit.
pub slot_object :
    (n i o : ℕ) (u : PollerUnit)
    → IsSound n u
    → (u.table i).poller ≡ some o
    → (x : PollerObject) × (u.objects o ≡ some x) × (x.epslot ≡ some i) × (x.owned ≡ true)
slot_object n i o u h held = elim (h.owned o) [
  | inl free ↦ absurd (none-ne-some (sym free ∙ h.of_slot o i held))
  | inr (x, there, owned) ↦ (x, there, ap slot_of (sym there) ∙ h.of_slot o i held, owned)
]

apply_at_total :
    (i : ℕ) (taken : Bool) (o : ℕ) (x : PollerObject) (u : PollerUnit)
    → x.owned ≡ true
    → (r : Bool × PollerUnit) × (apply_at (some i) taken o x u ≡ some r)
unfolding apply_at
apply_at_total i taken o x u owned = elim (Bool-cases (same_mask x.old_events x.new_events)) [
  | inl same ↦ ((true, u), rw same refl)
  | inr differ ↦ elim (Bool-cases taken) [
    | inl took ↦
        ((true, put_object o (some (applied x)) (tell true o i u)), rw (differ, owned, took) refl)
    | inr not_taken ↦ ((false, tell false o i u), rw (differ, owned, not_taken) refl)
  ]
]

-- A notification takes at most some operations.
abbrev pub IsBounded : ℕ → Notify → Type 0
IsBounded k f = (o : ℕ) (u : PollerUnit) → (j : ℕ) × (j ≤ k) × Steps j u (f o u).1

pub record AreBounded (k : ℕ) (h : Handlers) : Type 0 where
  pub input : IsBounded k h.input_notify
  pub output : IsBounded k h.output_notify
  pub hangup : IsBounded k h.hangup_notify

holds_object-true :
    (p : Option ℕ) (o : ℕ) (ok : Bool) → (holds_object p o && ok) ≡ true → p ≡ some o
holds_object-true none o ok e = cc
holds_object-true (some q) o ok e = elim (Bool-cases (q == o)) [
  | inl same ↦ ap some (==→eq q o same)
  | inr differ ↦ absurd (true-ne-false (sym e ∙ rw differ refl))
]

-- The code returns, and keeps the unit.
abbrev pub Goes : ℕ → PollerUnit → Option PollerUnit → Type 0
Goes n u r = (v : PollerUnit) × (r ≡ some v) × Keeps n u v

module _ (k : ℕ) where
  notify-Keeps :
      (n i o : ℕ) (flag : Bool) (f : Notify) (u : PollerUnit)
      → IsBounded k f
      → n + k < 2 ^ 32
      → IsSound n u
      → (u.table i).poller ≡ some o
      → Keeps (n + k) u (notify flag f i o u).1
        × ((notify flag f i o u).0 ≡ true → ((notify flag f i o u).1.table i).poller ≡ some o)
  unfolding notify
  notify-Keeps n i o false f u bounded few h held =
      (Keeps_later n (n + k) u u (omega arith) (Keeps_refl n u h), λ e. held)
  notify-Keeps n i o true f u bounded few h held =
      let (j, most, done) = bounded o u in
      let v : PollerUnit = (f o u).1 in
      (
        Keeps_later (n + j) (n + k) u v (omega (arith, most))
            (steps-Keeps n j u v (omega (arith, most, few)) h done),
        λ e. holds_object-true (v.table i).poller o (f o u).0 e,
      )

  module _ (h : Handlers) (bounded : AreBounded k h) where
    after_output-Goes :
        (n i o : ℕ) (e : EpollEvent) (on : Bool) (u : PollerUnit)
        → n + 1 < 2 ^ 32
        → IsSound n u
        → (on ≡ true → (u.table i).poller ≡ some o)
        → Goes (n + 1) u (after_output h e o (on, u))
    unfolding after_output apply_events with_object
    after_output-Goes n i o e false u few sound held =
        (u, refl, Keeps_later n (n + 1) u u (omega arith) (Keeps_refl n u sound))
    after_output-Goes n i o e true u few sound held =
        let (x, there, at, owned) = slot_object n i o u sound (held refl) in
        let (r, done) = apply_at_total i e.taken o x u owned in
        let applies : apply_events e.taken o u ≡ some r =
          bind_some _ there (ap (λ p. apply_at p e.taken o x u) at ∙ done) in
        (r.1, bind_some _ applies refl, apply_events-Keeps n few u sound e.taken o r.0 r.1 applies)

    after_input-Goes :
        (n i o : ℕ) (e : EpollEvent) (on : Bool) (u : PollerUnit)
        → n + k + 1 < 2 ^ 32
        → IsSound n u
        → (on ≡ true → (u.table i).poller ≡ some o)
        → Goes (n + k + 1) u (after_input h e i o (on, u))
    unfolding after_input
    after_input-Goes n i o e false u few sound held =
        (u, refl, Keeps_later n (n + k + 1) u u (omega arith) (Keeps_refl n u sound))
    after_input-Goes n i o e true u few sound held =
        let (kept, still) =
          notify-Keeps n i o e.output h.output_notify u bounded.output (omega (arith, few)) sound
            (held refl) in
        let next = notify e.output h.output_notify i o u in
        let (v, done, more) = after_output-Goes (n + k) i o e next.0 next.1 few kept.sound still in
        (v, done, Keeps_trans (n + k) (n + k + 1) u next.1 v kept more)

    pub react-Goes :
        (n i o : ℕ) (e : EpollEvent) (u : PollerUnit)
        → n + k + k + 1 < 2 ^ 32
        → IsSound n u
        → (u.table i).poller ≡ some o
        → Goes (n + k + k + 1) u (react h e i o u)
    unfolding react
    react-Goes n i o e u few sound held = elim (Bool-cases e.hangup) [
      | inl up ↦
          let (j, most, done) = bounded.hangup o u in
          let v : PollerUnit = (h.hangup_notify o u).1 in
          (
            v,
            ap
                (λ b.
                  if b then some v else after_input h e i o (notify e.input h.input_notify i o u))
                up,
            Keeps_later (n + j) (n + k + k + 1) u v (omega (arith, most))
                (steps-Keeps n j u v (omega (arith, most, few)) sound done),
          )
      | inr on ↦
          let (kept, still) =
            notify-Keeps n i o e.input h.input_notify u bounded.input (omega (arith, few)) sound
              held in
          let next = notify e.input h.input_notify i o u in
          let (v, done, more) =
            after_input-Goes (n + k) i o e next.0 next.1 (omega (arith, few)) kept.sound still in
          (
            v,
            ap (λ b. if b then some (h.hangup_notify o u).1 else after_input h e i o next) on
                ∙ done,
            Keeps_trans (n + k) (n + k + k + 1) u next.1 v kept more,
          )
    ]
