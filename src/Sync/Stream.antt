-- ===== src/Sync/Stream.antt =====
-- Several requests in one stream of bytes, as `proc_pkg`'s loop takes them from `_r`
-- (OrderSyncServer/src/proxy/client_unit.cpp).
use order_sync.Base.{
  ℕ, zero, suc, ◌+◌, ◌^◌, ◌≤◌, ◌<◌, ◌≡◌, ◌≢◌, refl, sym, ap, ◌∙◌, List, [], ◌∷◌, ◌++◌, Option, none,
  some, Bool, map, arith, length, drop, All, IsByte, append_assoc, append-nil, length-append,
  be_bytes, ◌==◌, if◌then◌else◌, bind_some, drop-append, subst,
}
use order_sync.Wire.Frame.{frame}
use order_sync.Server.Tables.{send_byte_map}
use order_sync.Server.ClientUnit.{Parsed, thrown}
use order_sync.Server.ClientUnit.{
  ClientUnit, Shards, DecodeStatus, wait_head, wait_content, SendOutcome, wait, packet,
  handle_input, handle_input_buf, drain, server_cmd_data_rep, data_flow,
}
use order_sync.Server.ClientUnit.Reply.{reply-frame}
use order_sync.Server.ClientUnit.Sending.{IsOpen, send-IsOpen}
use order_sync.Server.ClientUnit.Sharding.{
  IsNumbered, queue, orders_of, data_flow-IsNumbered, flow_all, flow_all_lem,
}
use order_sync.Sync.Request.{request_wire, request_handled, serve}

-- What `run` reads of an event and puts into one request.
pub record Order : Type 0 where
  pub client_id : ℕ
  pub event_id : ℕ
  pub json : List ℕ

-- An order that fits the fields of a request and the server's largest packet.
pub record IsOrder (o : Order) : Type 0 where
  pub fits : length o.json + 25 ≤ 8000
  pub client_small : o.client_id < 256 ^ 4
  pub event_small : o.event_id < 256 ^ 8
  pub bytes : All IsByte o.json
  pub plain : All (λ b. b ≢ 0) o.json

abbrev pub wire_of : Order → List ℕ
wire_of o = request_wire o.client_id o.event_id o.json

-- The requests for some orders, one after the other.
abbrev pub stream : List Order → List ℕ
stream [] = []
stream (o ∷ os) = wire_of o ++ stream os

abbrev pub reply_wire : Order → List ℕ
reply_wire o = frame send_byte_map server_cmd_data_rep (be_bytes 8 o.event_id)

abbrev pub replies : List Order → List ℕ
replies [] = []
replies (o ∷ os) = reply_wire o ++ replies os

-- The status that the loop leaves when it waits for more.
abbrev pub waiting : List ℕ → DecodeStatus
waiting tail = if length tail == 0 then wait_head else wait_content

abbrev from_some : Option Shards → Shards
from_some none = []
from_some (some m) = m

length-stream : (os : List Order) → length os ≤ length (stream os)
length-stream [] = omega arith
length-stream (o ∷ os) = omega (arith, length-append (wire_of o) (stream os), length-stream os)

module _ (order_id : List ℕ → Parsed) (kernel : ℕ → ℕ → SendOutcome) where
  drain-served :
      (fuel n k : ℕ) (u v : ClientUnit)
      → 0 < length u.r
      → handle_input u.r ≡ packet n
      → handle_input_buf order_id kernel u.r n u ≡ some (some k, v)
      → drain order_id kernel (suc fuel) u
        ≡ drain order_id kernel fuel (record v { r = drop n v.r })
  unfolding drain
  drain-served fuel n k u v more found served = ground (arith, more, found, served)

  drain-waits :
      (fuel : ℕ) (u : ClientUnit)
      → length u.r ≤ fuel
      → handle_input u.r ≡ wait
      → drain order_id kernel fuel u ≡ some (waiting u.r, u)
  unfolding drain
  drain-waits zero u enough e = ground (arith, enough)
  drain-waits (suc fuel) u enough e = ground (arith, e)

  serve-IsOpen :
      (u : ClientUnit) (o : Order)
      → IsOpen kernel
      → IsNumbered u.shards
      → order_id o.json ≢ thrown
      → u.w ≡ []
      → (k : ℕ) × (v : ClientUnit) × (ok : Bool) × (serve order_id kernel o.client_id o.event_id
            o.json u
          ≡ some (some k, v))
        × (data_flow order_id o.json u.shards ≡ some (ok, v.shards))
        × IsNumbered v.shards
        × (v.w ≡ [])
        × (v.sent ≡ u.sent ++ reply_wire o)
        × (v.r ≡ u.r)
  unfolding serve
  serve-IsOpen u o takes numbered typed empty =
      let (ok, m, flow, numbered', same, queues) =
        data_flow-IsNumbered order_id o.json u.shards numbered typed in
      let u₁ : ClientUnit = record u {
        clients = o.client_id ∷ u.clients;
        shards = m;
        w = u.w ++ reply_wire o;
      } in
      let held : u₁.w ≡ reply_wire o = ap (λ w. w ++ reply_wire o) empty in
      let (k, v, done, w, sent, r, shards) =
        send-IsOpen kernel u₁ takes (omega (arith, ap length held)) in
      (
        k,
        v,
        ok,
        bind_some _ flow (bind_some _ (reply-frame o.event_id) (ap some done)),
        flow ∙ ap (λ m'. some (ok, m')) (sym shards),
        subst IsNumbered (sym shards) numbered',
        w,
        sent ∙ ap (λ b. u.sent ++ b) held,
        r,
      )

  -- One turn of the loop on a stream that begins with a request.
  drain-request :
      (fuel : ℕ) (u : ClientUnit) (o : Order) (more : List ℕ)
      → IsOpen kernel
      → IsOrder o
      → IsNumbered u.shards
      → order_id o.json ≢ thrown
      → u.w ≡ []
      → u.r ≡ wire_of o ++ more
      → (v : ClientUnit) × (ok : Bool) × (drain order_id kernel (suc fuel) u
          ≡ drain order_id kernel fuel v)
        × (data_flow order_id o.json u.shards ≡ some (ok, v.shards))
        × IsNumbered v.shards
        × (v.w ≡ [])
        × (v.sent ≡ u.sent ++ reply_wire o)
        × (v.r ≡ more)
  drain-request fuel u o more takes h numbered typed empty held =
      let (found, handled) =
        request_handled order_id kernel u u.r more o.client_id o.event_id o.json held h.fits
          h.client_small h.event_small h.bytes h.plain in
      let (k, v, ok, served, flow, numbered', w, sent, r) =
        serve-IsOpen u o takes numbered typed empty in
      let n : ℕ = length (wire_of o) in
      (
        record v { r = drop n v.r },
        ok,
        drain-served fuel n k u v (omega (arith, ap length held)) found (handled ∙ served),
        flow,
        numbered',
        w,
        sent,
        ap (drop n) (r ∙ held) ∙ drop-append n (wire_of o) more refl,
      )

  drain_each :
      (fuel : ℕ) (os : List Order) (u : ClientUnit) (tail : List ℕ)
      → IsOpen kernel
      → All IsOrder os
      → IsNumbered u.shards
      → All (λ t. order_id t ≢ thrown) (map (λ o. o.json) os)
      → u.w ≡ []
      → u.r ≡ stream os ++ tail
      → handle_input tail ≡ wait
      → length os + length tail ≤ fuel
      → (v : ClientUnit) × (drain order_id kernel fuel u ≡ some (waiting tail, v))
        × (flow_all order_id (map (λ o. o.json) os) u.shards ≡ some v.shards)
        × (v.sent ≡ u.sent ++ replies os)
        × (v.w ≡ [])
        × (v.r ≡ tail)
  unfolding flow_all
  drain_each fuel [] u tail takes hs numbered typed empty held waits enough = (
    u,
    drain-waits fuel u (omega (arith, ap length held)) (ap handle_input held ∙ waits)
        ∙ ap (λ b. some (waiting b, u)) held,
    refl,
    sym (append-nil u.sent),
    empty,
    held,
  )
  drain_each zero (o ∷ os) u tail takes hs numbered typed empty held waits enough =
      absurd (omega arith)
  drain_each (suc fuel) (o ∷ os) u tail takes hs numbered typed empty held waits enough =
      let (v, ok, step, flow, numbered', w, sent, r) =
        drain-request fuel u o (stream os ++ tail) takes hs.0 numbered typed.0 empty
          (held ∙ append_assoc (wire_of o) (stream os) tail) in
      let (v', done, flow', sent', w', r') =
        drain_each fuel os v tail takes hs.1 numbered' typed.1 w r waits (omega arith) in
      (
        v',
        step ∙ done,
        bind_some _ flow flow',
        sent' ∙ ap (λ b. b ++ replies os) sent ∙ append_assoc u.sent (reply_wire o) (replies os),
        w',
        r',
      )

  -- A socket that takes whatever it is given, the shards numbered from 1 on, and nothing waiting to
  -- be sent: from a stream that holds the requests for any orders that fit, of which none makes the
  -- JSON library throw, and then at most the beginning of a packet, the loop queues each order whose number is read in its shard, in sequence,
  -- sends the replies to all in sequence, and leaves the beginning of the packet.
  pub drain-stream :
      (os : List Order) (u : ClientUnit) (tail : List ℕ)
      → IsOpen kernel
      → All IsOrder os
      → IsNumbered u.shards
      → All (λ t. order_id t ≢ thrown) (map (λ o. o.json) os)
      → u.w ≡ []
      → u.r ≡ stream os ++ tail
      → handle_input tail ≡ wait
      → (v : ClientUnit) × (drain order_id kernel (length u.r) u ≡ some (waiting tail, v))
        × (v.sent ≡ u.sent ++ replies os)
        × (v.w ≡ [])
        × (v.r ≡ tail)
        × ((j : ℕ)
            → queue j v.shards
              ≡ queue j u.shards ++ orders_of order_id (length u.shards) j (map (λ o. o.json) os))
  drain-stream os u tail takes hs numbered typed empty held waits =
      let (v, done, flow, sent, w, r) =
        drain_each (length u.r) os u tail takes hs numbered typed empty held waits
          (omega (arith, ap length held, length-append (stream os) tail, length-stream os)) in
      let (m, flow', queues) =
        flow_all_lem order_id (map (λ o. o.json) os) u.shards numbered typed in
      (
        v,
        done,
        sent,
        w,
        r,
        λ j. ap (λ (s : Option Shards). queue j (from_some s)) (sym flow ∙ flow') ∙ queues j,
      )
