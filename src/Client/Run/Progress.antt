-- ===== src/Client/Run/Progress.antt =====
-- When the server comes back: the event comes to its end in boundedly many steps.
use order_sync.Base.{
  ℕ, ◌+◌, ◌-◌, ◌^◌, ◌≤◌, ◌<◌, ◌≡◌, ◌⊎◌, inl, inr, refl, sym, ap, ◌∙◌, subst, List, [], ◌∷◌, ◌++◌,
  Option, some, Bool, true, length, take, drop, All, arith, ltb, lt→ltb, le→not_ltb, le_or_lt,
  eq→==, ne→not_==, if◌then◌else◌, bind_some, be_bytes,
}
use order_sync.Wire.Frame.{frame}
use order_sync.Server.Tables.{send_byte_map}
use order_sync.Client.TcpClient.{
  TcpClient, took, got, reached, Sending, more, returned, send_start, send_answer, reconnect,
}
use order_sync.Client.Run.{
  success, Stage, sending, reconnecting, receiving, finished, Loop, Moment, after_send, start_send,
  judge, after_recv, step, step_at, steps,
}
use order_sync.Client.Run.Verdicts.{HasRoom, judge_reply}
use order_sync.Client.Run.Delivery.{At, start_send-At, send_answer-At, steps-At, recv_up}

module _ (malloc : ℕ → Option (List ℕ)) (event_id : ℕ) (wire : List ℕ) (cmd : ℕ)
    (some_bytes : 0 < length wire) (small : event_id < 256 ^ 8) where
  -- The server is there: it can be reached, its socket takes some bytes each time, and the reply to
  -- this event has come whole.
  pub record IsServed (m : Moment) : Type 0 where
    pub size : ℕ
    pub takes : m.takes ≡ took size
    pub some_taken : 0 < size
    pub gives : m.gives ≡ got (frame send_byte_map cmd (be_bytes 8 event_id))
    pub reaches : m.reaches ≡ reached

  -- How many steps there are at most, while the server is there.
  abbrev pub to_go : Stage → ℕ
  to_go (sending off) = length wire - off + 1
  to_go reconnecting = length wire + 2
  to_go receiving = 1
  to_go (finished v) = 0

  judge_served :
      (s : Loop)
      → HasRoom malloc s.input
      → (t : Loop) × (judge malloc event_id (frame send_byte_map cmd (be_bytes 8 event_id)) s
          ≡ some t)
        × (t.stage ≡ finished success)
  judge_served s h =
      let (t, judged, stage, input) = judge_reply malloc event_id event_id cmd s h small in
      (t, judged, stage ∙ rw (eq→== event_id event_id refl) refl)

  -- A step in such a moment brings the end nearer.
  Nearer : Loop → Option Loop → Type 0
  Nearer s r =
      (t : Loop) × (r ≡ some t)
      × ((t.stage ≡ finished success)
          ⊎ ((to_go t.stage < to_go s.stage)
              × (t.input ≡ s.input)
              × At wire t.stage t.tcp
              × (0 < to_go t.stage)))

  after_send_nearer :
      (off size : ℕ) (s : Loop)
      → off < length wire
      → 0 < size
      → let r =
          if ltb (off + size) (length wire) then more (off + size) else returned (off + size) in
        let t = after_send r s in
        (to_go t.stage < length wire - off + 1) × (t.input ≡ s.input) × (0 < to_go t.stage)
  unfolding after_send
  after_send_nearer off size s inside some_taken = elim (le_or_lt (length wire) (off + size)) [
    | inl all ↦
        rw
          (
            le→not_ltb (off + size) (length wire) all,
            ne→not_== (off + size) 0 (λ e. omega (arith, e)),
          )
          (omega arith, refl, omega arith)
    | inr part ↦ rw (lt→ltb (off + size) (length wire) part) (omega arith, refl, omega arith)
  ]

  sending-Nearer :
      (off : ℕ) (m : Moment) (s : Loop)
      → s.stage ≡ sending off
      → At wire (sending off) s.tcp
      → IsServed m
      → Nearer s (step_at malloc event_id wire (sending off) m s)
  unfolding step_at Nearer send_answer
  sending-Nearer off m s at h served =
      let c : TcpClient = record s.tcp {
        current = s.tcp.current ++ take served.size (drop off wire);
      } in
      let r : Sending =
        if ltb (off + served.size) (length wire)
        then more (off + served.size)
        else returned (off + served.size) in
      let t : Loop = after_send r (record s { tcp = c }) in
      let sent : send_answer wire off (took served.size) s.tcp ≡ (r, c) =
        rw (lt→ltb 0 served.size served.some_taken) refl in
      let (less, same, going) =
        after_send_nearer off served.size (record s { tcp = c }) (h.2) served.some_taken in
      (
        t,
        ap (λ a. some (after_send a.0 (record s { tcp = a.1 })))
            (ap (λ a. send_answer wire off a s.tcp) served.takes ∙ sent),
        inr (
          omega (arith, less, ap to_go at),
          same,
          subst
              (λ (a : Sending × TcpClient).
                At wire (after_send a.0 (record s { tcp = a.1 })).stage
                  (after_send a.0 (record s { tcp = a.1 })).tcp)
              sent (send_answer-At wire some_bytes off (took served.size) s h),
          going,
        ),
      )

  reconnecting-Nearer :
      (m : Moment) (s : Loop)
      → s.stage ≡ reconnecting
      → At wire reconnecting s.tcp
      → IsServed m
      → Nearer s (step_at malloc event_id wire reconnecting m s)
  unfolding step_at Nearer reconnect start_send send_start after_send
  reconnecting-Nearer m s at h served =
      let c : TcpClient = record s.tcp {
        is_connected = true;
        past = s.tcp.current ∷ s.tcp.past;
        current = [];
      } in
      let up : reconnect reached s.tcp ≡ (true, c) = rw h refl in
      let t : Loop = record s { tcp = c; stage = sending 0 } in
      (
        t,
        ap (λ (a : Bool × TcpClient). some (start_send wire (record s { tcp = a.1 })))
              (ap (λ a. reconnect a s.tcp) served.reaches ∙ up)
            ∙ rw (lt→ltb 0 (length wire) some_bytes) refl,
        inr (omega (arith, ap to_go at), refl, ([], refl, some_bytes, refl), omega arith),
      )

  receiving-Nearer :
      (m : Moment) (s : Loop)
      → At wire receiving s.tcp
      → HasRoom malloc s.input
      → IsServed m
      → Nearer s (step_at malloc event_id wire receiving m s)
  unfolding step_at Nearer after_recv
  receiving-Nearer m s (base, held, up) room served =
      let (t, judged, over) = judge_served s room in
      (
        t,
        ap (λ a. after_recv malloc event_id wire a s) (recv_up m.gives s.tcp up ∙ served.gives)
            ∙ judged,
        inl over,
      )

  finished_stays :
      (ms : List Moment) (s : Loop)
      → s.stage ≡ finished success
      → steps malloc event_id wire ms s ≡ some s
  unfolding steps step step_at
  finished_stays [] s over = refl
  finished_stays (m ∷ ms) s over =
      bind_some _ (ap (λ a. step_at malloc event_id wire a m s) over) (finished_stays ms s over)

  step-Nearer :
      (m : Moment) (s : Loop) (stage : Stage)
      → s.stage ≡ stage
      → 0 < to_go stage
      → At wire stage s.tcp
      → HasRoom malloc s.input
      → IsServed m
      → Nearer s (step malloc event_id wire m s)
  unfolding step
  step-Nearer m s (sending off) at going h room served =
      subst (λ a. Nearer s (step_at malloc event_id wire a m s)) (sym at)
        (sending-Nearer off m s at h served)
  step-Nearer m s reconnecting at going h room served =
      subst (λ a. Nearer s (step_at malloc event_id wire a m s)) (sym at)
        (reconnecting-Nearer m s at h served)
  step-Nearer m s receiving at going h room served =
      subst (λ a. Nearer s (step_at malloc event_id wire a m s)) (sym at)
        (receiving-Nearer m s h room served)
  step-Nearer m s (finished v) at going h room served = absurd (omega arith)

  steps_succeed :
      (ms : List Moment) (s : Loop)
      → 0 < to_go s.stage
      → to_go s.stage ≤ length ms
      → At wire s.stage s.tcp
      → HasRoom malloc s.input
      → All IsServed ms
      → (t : Loop) × (steps malloc event_id wire ms s ≡ some t) × (t.stage ≡ finished success)
  unfolding steps Nearer
  steps_succeed [] s going enough h room served = absurd (omega arith)
  steps_succeed (m ∷ ms) s going enough h room served =
      let (t, first, near) = step-Nearer m s s.stage refl going h room served.0 in
      elim near [
        | inl over ↦ (t, bind_some _ first (finished_stays ms t over), over)
        | inr (less, same, h', going') ↦
            let (u, rest, over) =
              steps_succeed ms t going' (omega arith) h' (subst (HasRoom malloc) (sym same) room)
                served.1 in
            (u, bind_some _ first rest, over)
      ]

  to_go-le : (stage : Stage) → to_go stage ≤ length wire + 2
  to_go-le (sending off) = omega arith
  to_go-le reconnecting = omega arith
  to_go-le receiving = omega arith
  to_go-le (finished v) = omega arith

  -- Whatever the kernel answered since the event's packet was first sent: if the event is not over,
  -- and from now on the server can be reached, its socket takes some bytes each time, the reply to
  -- the event has come whole, and there is a block for it, then the event ends in success after as
  -- many steps as the packet has bytes, and two.
  pub steps_recover :
      (before after : List Moment) (s t : Loop)
      → steps malloc event_id wire before (start_send wire s) ≡ some t
      → 0 < to_go t.stage
      → HasRoom malloc t.input
      → All IsServed after
      → length wire + 2 ≤ length after
      → (u : Loop) × (steps malloc event_id wire after t ≡ some u) × (u.stage ≡ finished success)
  steps_recover before after s t e going room served enough =
      steps_succeed after t going (omega (arith, enough, to_go-le t.stage))
        (steps-At wire some_bytes malloc event_id before (start_send wire s) t
          (start_send-At wire some_bytes s) e)
        room served
