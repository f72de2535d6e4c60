-- ===== src/Server/ClientUnit/Corruption.antt =====
-- `proc_pkg`'s loop on a packet of a client's that was changed on its way.
use order_sync.Base.{
  ℕ, suc, ◌+◌, ◌≤◌, ◌<◌, ◌≡◌, ◌≢◌, ap, ◌∙◌, List, ◌∷◌, ◌++◌, none, some, map, arith, length, All,
  IsByte, length-append, length-map, u8,
}
use order_sync.Wire.Cipher.{at, sum, negate, decode_loop_corrupted}
use order_sync.Wire.Frame.{raw_frame}
use order_sync.Wire.Agreement.{tables_agree, recv-IsTable}
use order_sync.Client.Tables.{encode_map}
use order_sync.Server.Tables.{recv_byte_map}
use order_sync.Server.ClientUnit.Requests.{Parsed}
use order_sync.Server.ClientUnit.{
  ClientUnit, fatal, SendOutcome, packet, handle_input, handle_input_buf, drain,
}
use order_sync.Server.ClientUnit.Framing.{handle_input-raw_frame, handle_input_buf-bad}

module _ (order_id : List ℕ → Parsed) (kernel : ℕ → ℕ → SendOutcome) where
  drain-refused :
      (fuel n : ℕ) (u : ClientUnit)
      → 0 < length u.r
      → handle_input u.r ≡ packet n
      → handle_input_buf order_id kernel u.r n u ≡ some (none, u)
      → drain order_id kernel (suc fuel) u ≡ some (fatal, u)
  unfolding drain
  drain-refused fuel n u more found bad = ground (arith, more, found, bad)

  -- A client's packet of at most 8000 bytes in which one byte of the substituted body has become
  -- another byte: the loop stops on it with DECODE_FATAL_ERROR, and no order is queued and nothing is
  -- answered.
  pub drain_corrupted :
      (fuel cmd x y : ℕ) (u : ClientUnit) (body before after more : List ℕ)
      → All IsByte body
      → map (at encode_map) body ≡ before ++ (x ∷ after)
      → IsByte x
      → IsByte y
      → x ≢ y
      → length body + 9 ≤ 8000
      → u.r
        ≡ raw_frame (length body + 7) cmd (negate (u8 (sum body))) (before ++ (y ∷ after)) ++ more
      → drain order_id kernel (suc fuel) u ≡ some (fatal, u)
  drain_corrupted fuel cmd x y u body before after more bytes split hx hy ne fits held =
      let code : ℕ = negate (u8 (sum body)) in
      let bad : List ℕ = before ++ (y ∷ after) in
      let same : length body ≡ length bad = omega (
        arith,
        ap length split,
        length-map (at encode_map) body,
        length-append before (x ∷ after),
        length-append before (y ∷ after),
      ) in
      let framed : u.r ≡ raw_frame (length bad + 7) cmd code bad ++ more =
        held ∙ ap (λ k. raw_frame (k + 7) cmd code bad ++ more) same in
      drain-refused fuel (length bad + 9) u (omega (arith, ap length framed))
        (handle_input-raw_frame u.r more bad cmd code framed (omega arith))
        (handle_input_buf-bad order_id kernel u u.r more cmd code bad framed (omega arith) (
          decode_loop_corrupted encode_map recv_byte_map (tables_agree.0) (tables_agree.2)
            recv-IsTable body before after x y bytes split hx hy ne))
