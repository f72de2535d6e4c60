-- ===== src/Server/Poller/Process.antt =====
-- A batch of events, from `epoll_wait` through `ProcessPollerEvents`.
use mathlib.Core.List.{Memᴰ}
use order_sync.Base.{
  ℕ, suc, ◌+◌, ◌*◌, ◌^◌, ◌≤◌, ◌<◌, ◌≡◌, inl, inr, refl, sym, ap, ◌∙◌, subst, List, [], ◌∷◌, some,
  length, All, arith, if◌then◌else◌, Bool-cases, bind_some,
}
use order_sync.Server.Poller.{
  PollerObject, Told, PollerUnit, initialize, put_object, with_object, data_slot,
}
use order_sync.Server.Poller.Table.{IsKnown}
use order_sync.Server.Poller.Sound.{IsSound, Keeps, slot_of, put_object-Keeps, All-imp}
use order_sync.Server.Poller.History.{Steps, Keeps_trans, Keeps_later, Keeps_refl}
use order_sync.Server.Poller.Start.{steps-IsSound}
use order_sync.Server.Poller.Events.{
  EpollEvent, Handlers, verify_events, dispatch, process_event, process_events,
}
use order_sync.Server.Poller.Dispatch.{AreBounded, Goes, verify_events_lem, slot_object, react-Goes}

-- The kernel was told what an event brings back.
pub record IsTold (told : List Told) (event_id : ℕ) : Type 0 where
  pub by : Told
  pub among : Memᴰ by told
  pub same : by.event_id ≡ event_id

pub All-Mem {ℓ κ} : {A : Type ℓ} (P : A → Type κ) (x : A) (xs : List A) → Memᴰ x xs → All P xs → P x
All-Mem P x [] m h = elim m [ ]
All-Mem P x (y ∷ xs) (Memᴰ.head e) h = subst P (sym e) h.0
All-Mem P x (y ∷ xs) (Memᴰ.tail m) h = All-Mem P x xs m h.1

-- An event that is of no time to come.
IsTimely : PollerUnit → EpollEvent → Type 0
IsTimely u e =
    (o : ℕ) × IsKnown u.max_pollers u.table (record { event_id = e.event_id; object = o })

IsTold-IsTimely :
    (n : ℕ) (u : PollerUnit) (e : EpollEvent)
    → IsSound n u
    → IsTold u.told e.event_id
    → IsTimely u e
unfolding IsTimely
IsTold-IsTimely n u e sound t = (
  t.by.object,
  subst (λ d. IsKnown u.max_pollers u.table (record { event_id = d; object = t.by.object })) t.same
      (All-Mem (IsKnown u.max_pollers u.table) t.by u.told t.among sound.known),
)

module _ (k : ℕ) (h : Handlers) (bounded : AreBounded k h) where
  dispatch-Goes :
      (n i o : ℕ) (e : EpollEvent) (u : PollerUnit)
      → n + k + k + 1 < 2 ^ 32
      → IsSound n u
      → (u.table i).poller ≡ some o
      → Goes (n + k + k + 1) u (dispatch h (some o) e i u)
  unfolding dispatch with_object put_object
  dispatch-Goes n i o e u few sound held =
      let (x, there, at, owned) = slot_object n i o u sound held in
      let y : PollerObject = record x { new_events = x.old_events } in
      let w : PollerUnit = put_object o (some y) u in
      let kept : Keeps n u w =
        put_object-Keeps n o (some y) u (ap slot_of (sym there)) (inr (y, refl, owned)) sound in
      let (v, done, more) = react-Goes k h bounded n i o e w few kept.sound held in
      (v, bind_some _ there done, Keeps_trans n (n + k + k + 1) u w v kept more)

  process_event-Goes :
      (n : ℕ) (e : EpollEvent) (u : PollerUnit)
      → n + k + k + 1 < 2 ^ 32
      → IsSound n u
      → IsTimely u e
      → Goes (n + k + k + 1) u (process_event h e u)
  unfolding process_event IsTimely
  process_event-Goes n e u few sound (o, known) =
      let i : ℕ = data_slot e.event_id in
      elim (Bool-cases (verify_events e.event_id u)) [
        | inl fresh ↦
            let held =
              verify_events_lem u (record { event_id = e.event_id; object = o }) known fresh in
            let (v, done, more) = dispatch-Goes n i o e u few sound held in
            (
              v,
              ap (λ b. if b then dispatch h (u.table i).poller e i u else some u) fresh
                  ∙ ap (λ p. dispatch h p e i u) held
                  ∙ done,
              more,
            )
        | inr stale ↦ (
          u,
          ap (λ b. if b then dispatch h (u.table i).poller e i u else some u) stale,
          Keeps_later n (n + k + k + 1) u u (omega arith) (Keeps_refl n u sound),
        )
      ]

  process_events-Goes :
      (n : ℕ) (es : List EpollEvent) (u : PollerUnit)
      → n + length es * (k + k + 1) < 2 ^ 32
      → IsSound n u
      → All (IsTimely u) es
      → Goes (n + length es * (k + k + 1)) u (process_events h es u)
  unfolding process_events IsTimely
  process_events-Goes n [] u few sound timely =
      (u, refl, Keeps_later n (n + 0 * (k + k + 1)) u u (omega arith) (Keeps_refl n u sound))
  process_events-Goes n (e ∷ es) u few sound timely =
      let all : n + suc (length es) * (k + k + 1) ≡ n + k + k + 1 + length es * (k + k + 1) =
        grind arith in
      let (v, done, kept) = process_event-Goes n e u (omega (arith, few, all)) sound timely.0 in
      let (w, rest, more) =
        process_events-Goes (n + k + k + 1) es v (omega (arith, few, all)) kept.sound
          (All-imp (IsTimely u) (IsTimely v) es (λ e' t. (t.0, kept.knows _ t.1)) timely.1) in
      (
        w,
        bind_some _ done rest,
        Keeps_later (n + k + k + 1 + length es * (k + k + 1)) _ u w (omega (arith, all))
            (Keeps_trans (n + k + k + 1) _ u v w kept more),
      )

  -- After any history of the objects, a batch of events of which the kernel was told before is
  -- processed to its end: no event finds a slot without an object, or an object that is not there,
  -- whatever the notifications before it have done to the poller's objects, in fewer than 2 ^ 32
  -- operations of theirs in all, on a table of at most 2 ^ 31 slots.
  pub process_events_total :
      (max n : ℕ) (u v : PollerUnit) (es : List EpollEvent)
      → initialize max ≡ some u
      → max ≤ 2 ^ 31
      → n + length es * (k + k + 1) < 2 ^ 32
      → Steps n u v
      → All (λ e. IsTold v.told e.event_id) es
      → (w : PollerUnit) × (process_events h es v ≡ some w)
        × IsSound (n + length es * (k + k + 1)) w
  process_events_total max n u v es e small few history told =
      let sound : IsSound n v = steps-IsSound max n u v e small (omega (arith, few)) history in
      let (w, done, kept) =
        process_events-Goes n es v few sound
          (All-imp _ (IsTimely v) es (λ e' t. IsTold-IsTimely n v e' sound t) told) in
      (w, done, kept.sound)
