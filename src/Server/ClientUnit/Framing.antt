-- ===== src/Server/ClientUnit/Framing.antt =====
-- `HandleInput` and `HandleInputBuf` on a frame that a client has sent.
use order_sync.Base.{
  ℕ, ◌+◌, ◌≤◌, ◌<◌, ◌≡◌, ◌≢◌, ne→not_==, refl, ap, ◌∙◌, List, ◌++◌, Option, none, some, true, arith,
  length, drop, length-append, get_or, swap_bytes-be_bytes, bind_some, ◌==◌, if◌then◌else◌,
}
use order_sync.Wire.Cipher.{decode_loop}
use order_sync.Wire.Frame.{raw_frame}
use order_sync.Server.Tables.{recv_byte_map}
use order_sync.Server.Packet.{Packet, zeros, copy, decrypt_buffer}
use order_sync.Server.Packet.Receive.{copy_lem, decrypt_buffer_lem, get_cmd_type_lem}
use order_sync.Server.ClientUnit.Requests.{Parsed}
use order_sync.Server.ClientUnit.Defs.{ClientUnit, SendOutcome, packet, handle_input, length_field}
use order_sync.Server.ClientUnit.Requests.{
  handle_input_buf, cmd_data_handler, blank, client_cmd_data_req,
}

pub handle_input_whole :
    (bytes : List ℕ) (n : ℕ)
    → 9 ≤ length bytes
    → get_or bytes 2 0 ≡ 0x42
    → get_or bytes 3 0 ≡ 0x59
    → length_field bytes ≡ n
    → 2 + n ≤ 8000
    → 2 + n ≤ length bytes
    → handle_input bytes ≡ packet (2 + n)
unfolding handle_input
handle_input_whole bytes n long flag flag' field fits whole = ground arith

pub handle_input-raw_frame :
    (bytes more body : List ℕ) (cmd code : ℕ)
    → bytes ≡ raw_frame (length body + 7) cmd code body ++ more
    → length body + 9 ≤ 8000
    → handle_input bytes ≡ packet (length body + 9)
handle_input-raw_frame bytes more body cmd code e fits =
    let field : length_field bytes ≡ length body + 7 =
      ap length_field e ∙ swap_bytes-be_bytes 2 (length body + 7) (omega arith) in
    let size : length bytes ≡ 9 + length body + length more =
      omega (arith, ap length e, length-append body more) in
    handle_input_whole bytes (length body + 7) (omega arith) (ap (λ b. get_or b 2 0) e)
      (ap (λ b. get_or b 3 0) e) field (omega arith) (omega arith)
    ∙ ap packet (omega arith)

-- The handler's packet of `n` bytes behind the header.
abbrev pub opened : ℕ → ℕ → ℕ → List ℕ → Packet
opened n cmd code body = record blank {
  buf = raw_frame (n + 7) cmd code body ++ drop (n + 9) zeros;
  size = n + 9;
  pos = 9;
}

-- What `HandleInputBuf` does once the packet is copied and decrypted.
abbrev pub dispatch :
    (List ℕ → Parsed)
    → (ℕ → ℕ → SendOutcome)
    → ClientUnit
    → ℕ
    → Packet
    → Option (Option ℕ × ClientUnit)
dispatch order_id kernel u cmd p =
    if cmd == client_cmd_data_req then cmd_data_handler order_id kernel p u else some (none, u)

module _ (order_id : List ℕ → Parsed) (kernel : ℕ → ℕ → SendOutcome) (u : ClientUnit)
    (source more : List ℕ) (cmd code : ℕ) (body : List ℕ)
    (held : source ≡ raw_frame (length body + 7) cmd code body ++ more)
    (fits : length body + 9 ≤ 8000) where
  copied : copy source (length body + 9) blank ≡ some (true, opened (length body) cmd code body)
  copied =
      copy_lem blank source (raw_frame (length body + 7) cmd code body) more (length body + 9) held
        (omega arith) (omega arith)
      ∙ ap
          (λ k. some (
            true,
            record (opened (length body) cmd code body) {
              buf = raw_frame (length body + 7) cmd code body ++ drop k zeros;
            },
          ))
          {x = length (raw_frame (length body + 7) cmd code body)} {y = length body + 9}
          (omega arith)

  decrypted :
      (out : ℕ × List ℕ)
      → decode_loop recv_byte_map code body ≡ out
      → decrypt_buffer (opened (length body) cmd code body)
        ≡ some
            (if out.0 == 0 then some (length body) else none, opened (length body) cmd code out.1)
  decrypted out e =
      decrypt_buffer_lem (opened (length body) cmd code body) (length body + 7) cmd code body
        (drop (length body + 9) zeros) refl refl (omega arith)
      ∙ ap
          (λ (r : ℕ × List ℕ).
            some (if r.0 == 0 then some (length body) else none, opened (length body) cmd code r.1))
          e

  -- A packet whose check code comes to 0 is dispatched on its command.
  pub handle_input_buf-good :
      (clear : List ℕ)
      → decode_loop recv_byte_map code body ≡ (0, clear)
      → cmd < 65536
      → handle_input_buf order_id kernel source (length body + 9) u
        ≡ dispatch order_id kernel u cmd (opened (length body) cmd code clear)
  unfolding handle_input_buf
  handle_input_buf-good clear e small = bind_some _ copied (
      bind_some _ (decrypted (0, clear) e) (
        bind_some _
          (get_cmd_type_lem (opened (length body) cmd code clear) (length body + 7) cmd code clear
            (drop (length body + 9) zeros) refl small)
          refl))

  -- A packet whose check code does not come to 0 is refused, and changes nothing.
  pub handle_input_buf-bad :
      (decode_loop recv_byte_map code body).0 ≢ 0
      → handle_input_buf order_id kernel source (length body + 9) u ≡ some (none, u)
  unfolding handle_input_buf
  handle_input_buf-bad ne = bind_some _ copied (
      bind_some _ (decrypted (decode_loop recv_byte_map code body) refl)
        (rw (ne→not_== (decode_loop recv_byte_map code body).0 0 ne)))
