-- ===== src/Client/Run/Verdicts.antt =====
-- What the loop makes of a reply.
use order_sync.Base.{
  ℕ, ◌^◌, ◌≤◌, ◌<◌, ◌≡◌, ◌≢◌, refl, sym, ap, ◌∙◌, List, [], Option, some, true, length, arith,
  ne→not_==, ◌==◌, if◌then◌else◌, bind_some, be_bytes, be_bytes-IsByte, append-nil,
}
use order_sync.Wire.Frame.{frame}
use order_sync.Server.Tables.{send_byte_map}
use order_sync.Client.Packet.{Packet}
use order_sync.Client.Packet.Parse.{target, parse_packet-frame, read_uint64-first}
use order_sync.Client.TcpClient.{got}
use order_sync.Client.Run.{
  success, mismatch, receiving, finished, Loop, Moment, judge, after_recv, step, step_at,
}
use order_sync.Client.Run.Delivery.{recv_up}

-- The block for a reply is there, and is large enough.
pub record HasRoom (malloc : ℕ → Option (List ℕ)) (p : Packet) : Type 0 where
  pub block : List ℕ
  pub there : target malloc 17 p ≡ some block
  pub room : 17 ≤ length block

module _ (malloc : ℕ → Option (List ℕ)) (event_id answered cmd : ℕ) (s : Loop) where
  pub judge_reply :
      HasRoom malloc s.input
      → answered < 256 ^ 8
      → (t : Loop) × (judge malloc event_id (frame send_byte_map cmd (be_bytes 8 answered)) s
          ≡ some t)
        × (t.stage ≡ finished (if event_id == answered then success else mismatch))
        × (t.tcp ≡ s.tcp)
  unfolding judge
  judge_reply h small =
      let reply : List ℕ = frame send_byte_map cmd (be_bytes 8 answered) in
      let (p, rest, parsed, buf, idx) =
        parse_packet-frame malloc s.input h.block reply [] (be_bytes 8 answered) cmd 17 h.there
          (sym (append-nil reply)) refl h.room (omega arith) (be_bytes-IsByte 8 answered) in
      let (q, read) = read_uint64-first p _ _ _ answered rest buf idx small in
      (
        record s {
          input = q;
          stage = finished (if event_id == answered then success else mismatch);
        },
        bind_some _ parsed (bind_some _ read refl),
        refl,
        refl,
      )

  -- A reply to another event ends this one: the loop notes the mismatch and sends nothing again.
  pub step_mismatch :
      (m : Moment)
      → s.stage ≡ receiving
      → s.tcp.is_connected ≡ true
      → HasRoom malloc s.input
      → answered < 256 ^ 8
      → event_id ≢ answered
      → m.gives ≡ got (frame send_byte_map cmd (be_bytes 8 answered))
      → (wire : List ℕ)
      → (t : Loop) × (step malloc event_id wire m s ≡ some t)
        × (t.stage ≡ finished mismatch)
        × (t.tcp ≡ s.tcp)
  unfolding step step_at after_recv
  step_mismatch m at up room small differs gives wire =
      let (t, judged, over, same) = judge_reply room small in
      (
        t,
        ap (λ a. step_at malloc event_id wire a m s) at
            ∙ ap (λ a. after_recv malloc event_id wire a s) (recv_up m.gives s.tcp up ∙ gives)
            ∙ judged,
        over ∙ rw (ne→not_== event_id answered differs) refl,
        same,
      )
