-- ===== src/Client/Run.antt =====
-- `order_sync_client_t::run` (OrderSyncClient/src/order_sync_client.cc): one event from the fetched
-- text to the verdict on the server's reply. The loop is a machine that makes one call of the kernel
-- in each step, and is given for that step what the kernel would answer to any of its calls.
pub mod Delivery
pub mod Verdicts
pub mod Progress
pub mod Patience
use order_sync.Base.{
  ℕ, ◌+◌, List, [], ◌∷◌, Option, none, some, Bool, true, false, length, leb, ◌==◌, if◌then◌else◌,
  ◌>>=◌,
}
use order_sync.Client.Packet.{Packet, ok, fail, parse_packet, read_uint64}
use order_sync.Client.TcpClient.{
  TcpClient, Errno, again, in_progress, other, Taken, Received, got, nothing, Reached, Sending,
  more, returned, drop_connection, send_start, send_answer, reconnect, recv,
}

abbrev pub error_times : ℕ
error_times = 200

-- What the loop makes of the reply, which it only logs.
pub data Verdict : Type 0 where
  success : Verdict
  mismatch unparsed : Verdict

-- The call that comes next, or the end of the event.
pub data Stage : Type 0 where
  sending : ℕ → Stage
  reconnecting receiving : Stage
  finished : Verdict → Stage

pub record Loop : Type 0 where
  pub stage : Stage
  pub tcp : TcpClient
  pub input : Packet
  pub r_errs : ℕ

-- What the kernel would answer now.
pub record Moment : Type 0 where
  pub takes : Taken
  pub gives : Received
  pub reaches : Reached

-- Where `Send`'s result leads: 0 to the reconnection, all else to the reply.
pub after_send : Sending → Loop → Loop
after_send (more off) s = record s { stage = sending off }
after_send (returned n) s =
    if n == 0
    then record s { tcp = drop_connection s.tcp; stage = reconnecting }
    else record s { stage = receiving }

-- The label `send`.
unfoldable pub start_send : List ℕ → Loop → Loop
unfolding after_send
start_send wire s = after_send (send_start wire s.tcp) s

-- A connection that is given up, and the jump to `send`.
give_up : List ℕ → Loop → Loop
unfolding start_send
give_up wire s = start_send wire (record s { tcp = drop_connection s.tcp })

-- `rr > 0`; `none` is a fault in `parse_packet` or `read_uint64`.
pub judge : (ℕ → Option (List ℕ)) → ℕ → List ℕ → Loop → Option Loop
judge malloc event_id bytes s = do
  p ← parse_packet malloc bytes (length bytes) s.input
  elim p.0 [
    | fail ↦ some (record s { input = p.1; stage = finished unparsed })
    | ok ↦ do
      r ← read_uint64 p.1
      some (record s {
        input = r.1;
        stage = finished (if event_id == r.0 then success else mismatch);
      })
  ]

after_recv : (ℕ → Option (List ℕ)) → ℕ → List ℕ → Received → Loop → Option Loop
unfolding judge give_up
after_recv malloc event_id wire (got []) s = some (give_up wire s)
after_recv malloc event_id wire (got (b ∷ bs)) s = judge malloc event_id (b ∷ bs) s
after_recv malloc event_id wire (nothing other) s = some (give_up wire s)
after_recv malloc event_id wire (nothing errno) s = some (
    if leb s.r_errs error_times
    then record s { r_errs = s.r_errs + 1 }
    else give_up wire (record s { r_errs = 0 }))

module _ (malloc : ℕ → Option (List ℕ)) (event_id : ℕ) (wire : List ℕ) where
  unfoldable pub step_at : Stage → Moment → Loop → Option Loop
  unfolding after_send after_recv
  step_at (sending off) m s =
      let (r, c) = send_answer wire off m.takes s.tcp in some (after_send r (record s { tcp = c }))
  step_at reconnecting m s =
      let (up, c) = reconnect m.reaches s.tcp in some (start_send wire (record s { tcp = c }))
  step_at receiving m s = after_recv malloc event_id wire (recv m.gives s.tcp) s
  step_at (finished v) m s = some s

  unfoldable pub step : Moment → Loop → Option Loop
  unfolding step_at
  step m s = step_at s.stage m s

  -- The steps at some moments, one after the other.
  unfoldable pub steps : List Moment → Loop → Option Loop
  steps [] s = some s
  steps (m ∷ ms) s = do t ← step m s; steps ms t
