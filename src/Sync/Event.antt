-- ===== src/Sync/Event.antt =====
-- One event of `order_sync_client_t::run` (OrderSyncClient/src/order_sync_client.cc), from the text
-- fetched to the bytes on the connection.
use order_sync.Base.{
  some-inj, ℕ, ◌+◌, ◌%◌, ◌^◌, ◌<◌, ◌≡◌, ◌≢◌, refl, sym, ap, ◌∙◌, List, ◌∷◌, ◌++◌, Option, some,
  length, All, arith, bind_some, bind_inv,
}
use order_sync.Client.Packet.{Packet, clean}
use order_sync.Client.Packet.Finish.{build, sent, obtain}
use order_sync.Client.Run.{
  Verdict, Stage, sending, reconnecting, receiving, finished, Loop, Moment, start_send, steps,
}
use order_sync.Client.Run.Delivery.{steps_delivered}
use order_sync.Client.Turn.{
  Client, Orders, prepare, begin_event, end_event, settle, event, with_text, writeable,
  cmd_data_sync, request,
}
use order_sync.Sync.Request.{request_wire, request_sent}

settle-finished :
    (out : Packet) (s : Loop) (c d : Client) (stage : Stage) (v : Verdict)
    → settle out s c stage ≡ some (some v, d)
    → (w : Verdict) × (stage ≡ finished w)
      × (d.tcp ≡ s.tcp)
      × (d.event_id ≡ (c.event_id + 1) % 2 ^ 64)
unfolding settle end_event
settle-finished out s c d (sending off) v e = cc
settle-finished out s c d reconnecting v e = cc
settle-finished out s c d receiving v e = cc
settle-finished out s c d (finished w) v e =
    let (x, ended, e₁) = bind_inv (end_event out s c) _ _ e in
    let (cleaned, was, e₂) = bind_inv (clean out) _ _ ended in
    let same : x ≡ d = ap (λ r. r.1) (some-inj e₁) in
    (
      w,
      refl,
      ap (λ r. r.tcp) (sym same ∙ sym (some-inj e₂)),
      ap (λ r. r.event_id) (sym same ∙ sym (some-inj e₂)),
    )

module _ (malloc : ℕ → Option (List ℕ)) (lib : Orders) (client_id : ℕ) where
  begin_event-request :
      (json block wire : List ℕ) (out : Packet) (c : Client) (l : Loop)
      → obtain malloc c.output ≡ some block
      → length json + 25 < length block
      → length block < 65536
      → All (λ x. x ≢ 0) json
      → begin_event malloc lib client_id json c ≡ some (wire, out, l)
      → (wire ≡ request_wire client_id c.event_id json) × (s : Loop) × (l ≡ start_send wire s)
  unfolding begin_event
  begin_event-request json block wire out c l there fits small plain e =
      let (p, built, e₁) =
        bind_inv (build malloc cmd_data_sync (request client_id c.event_id json) c.output) _ _ e in
      let (w, held, e₂) = bind_inv (sent p) _ _ e₁ in
      let start : Loop = record {
        stage = reconnecting;
        tcp = c.tcp;
        input = c.input;
        r_errs = 0;
      } in
      let whole : some w ≡ some (request_wire client_id c.event_id json) =
        sym held
        ∙ sym (bind_some sent built refl)
        ∙ request_sent malloc c.output block client_id c.event_id json there fits small plain in
      let same : w ≡ wire = ap (λ r. r.0) (some-inj e₂) in
      (
        sym same ∙ some-inj whole,
        start,
        sym (ap (λ r. r.2) (some-inj e₂)) ∙ ap (λ a. start_send a start) same,
      )

  -- Whatever the kernel answers while a text that is to be sent is on its way: an event that comes to
  -- its end, whatever the verdict, has had the whole request for the text, under the client's and the
  -- event's number, taken by the kernel on the connection that is then the present one, and the next
  -- event has the next number.
  pub writeable_delivered :
      (b : ℕ) (bs json block : List ℕ) (ms : List Moment) (c d : Client) (v : Verdict)
      → prepare lib (b ∷ bs) ≡ some json
      → obtain malloc c.output ≡ some block
      → length json + 25 < length block
      → length block < 65536
      → All (λ x. x ≢ 0) json
      → writeable malloc lib client_id (b ∷ bs) ms c ≡ some (some v, d)
      → (base : List ℕ) × (d.tcp.current ≡ base ++ request_wire client_id c.event_id json)
        × (d.event_id ≡ (c.event_id + 1) % 2 ^ 64)
  unfolding writeable with_text event
  writeable_delivered b bs json block ms c d v prepared there fits small plain e =
      let e₀ : event malloc lib client_id json ms c ≡ some (some v, d) =
        ap (λ p. with_text malloc lib client_id p ms c) (sym prepared) ∙ e in
      let (begun, b₁, e₁) = bind_inv (begin_event malloc lib client_id json c) _ _ e₀ in
      let (s, ran, e₂) = bind_inv (steps malloc c.event_id begun.0 ms begun.2) _ _ e₁ in
      let (same, start, from) =
        begin_event-request json block begun.0 begun.1 c begun.2 there fits small plain b₁ in
      let (w, over, tcp, number) = settle-finished begun.1 s c d s.stage v e₂ in
      let (base, held) =
        steps_delivered begun.0 (omega (arith, ap length same)) malloc c.event_id ms start s w
          (ap (λ l. steps malloc c.event_id begun.0 ms l) (sym from) ∙ ran) over in
      (base, ap (λ t. t.current) tcp ∙ held ∙ ap (λ a. base ++ a) same, number)
