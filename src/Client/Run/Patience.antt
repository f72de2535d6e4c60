-- ===== src/Client/Run/Patience.antt =====
-- How long the loop waits for a reply that does not come.
use order_sync.Base.{
  ℕ, ◌+◌, ◌≤◌, ◌≡◌, refl, ap, ◌∙◌, List, [], ◌∷◌, Option, some, true, false, length, All, arith,
  leb, le→leb, if◌then◌else◌, bind_some,
}
use order_sync.Client.Packet.{Packet}
use order_sync.Client.TcpClient.{TcpClient, nothing, again, send_start, drop_connection}
use order_sync.Client.Run.{
  reconnecting, receiving, Loop, Moment, after_send, start_send, give_up, after_recv, step, step_at,
  steps,
}
use order_sync.Client.Run.Delivery.{recv_up}

abbrev pub IsSilent : Moment → Type 0
IsSilent m = m.gives ≡ nothing again

module _ (malloc : ℕ → Option (List ℕ)) (event_id : ℕ) (wire : List ℕ) where
  -- A loop that waits for the reply on a connection that is up.
  abbrev pub waiting : TcpClient → Packet → ℕ → Loop
  waiting c p n = record {
    stage = receiving;
    tcp = record c { is_connected = true };
    input = p;
    r_errs = n;
  }

  step_silent :
      (m : Moment) (c : TcpClient) (p : Packet) (n : ℕ)
      → IsSilent m
      → step malloc event_id wire m (waiting c p n)
        ≡ some (if leb n 200 then waiting c p (n + 1) else give_up wire (waiting c p 0))
  unfolding step step_at after_recv
  step_silent m c p n silent =
      ap (λ a. after_recv malloc event_id wire a (waiting c p n))
        (recv_up m.gives (record c { is_connected = true }) refl ∙ silent)

  steps_silent :
      (ms : List Moment) (c : TcpClient) (p : Packet) (n : ℕ)
      → All IsSilent ms
      → n + length ms ≤ 201
      → steps malloc event_id wire ms (waiting c p n) ≡ some (waiting c p (n + length ms))
  unfolding steps
  steps_silent [] c p n silent few = ap (λ k. some (waiting c p k)) (omega arith)
  steps_silent (m ∷ ms) c p n silent few =
      bind_some _ (step_silent m c p n silent.0 ∙ rw (le→leb n 200 (omega arith)) refl) (
        steps_silent ms c p (n + 1) silent.1 (omega arith)
        ∙ ap (λ k. some (waiting c p k)) (omega arith))

  -- A server that says nothing: through 201 receives that would block the loop waits, and the 202nd
  -- makes it drop the connection and go on to connect again.
  pub steps_patience :
      (ms : List Moment) (m : Moment) (c : TcpClient) (p : Packet)
      → All IsSilent ms
      → length ms ≡ 201
      → IsSilent m
      → (t : Loop) × (steps malloc event_id wire ms (waiting c p 0) ≡ some (waiting c p 201))
        × (step malloc event_id wire m (waiting c p 201) ≡ some t)
        × (t.stage ≡ reconnecting)
        × (t.tcp.is_connected ≡ false)
  unfolding give_up start_send send_start after_send drop_connection
  steps_patience ms m c p silent many quiet = (
    record { stage = reconnecting; tcp = record c { is_connected = false }; input = p; r_errs = 0 },
    steps_silent ms c p 0 silent (omega (arith, many))
        ∙ ap (λ k. some (waiting c p k)) (omega (arith, many)),
    step_silent m c p 201 quiet,
    refl,
    refl,
  )
