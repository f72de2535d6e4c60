-- ===== src/Server/ClientUnit/Reply.antt =====
-- The reply that `cmd_data_handler` makes, step by step.
use order_sync.Base.{
  ℕ, ◌+◌, ◌≡◌, refl, sym, List, [], ◌∷◌, ◌++◌, some, true, arith, length, be_bytes, u8, bind_some,
  store-inside, load-append, replicate, replicate-add, map,
}
use order_sync.Wire.Cipher.{
  at, sum, negate, encode_loop, encode_loop_code, encode_loop_out, length-encode_loop,
}
use order_sync.Wire.Frame.{frame, raw_frame}
use order_sync.Server.Tables.{send_byte_map}
use order_sync.Server.Packet
use order_sync.Server.Packet.{Packet, zeros}
use order_sync.Server.Packet.Receive.{get_body_length_lem}
use order_sync.Server.ClientUnit.Requests.{reply, blank, server_cmd_data_rep}

zeros_split : (rest : List ℕ) × (zeros ≡ replicate 17 0 ++ rest)
unfolding zeros
zeros_split = (replicate 8175 0, replicate-add 17 8175 0)

-- A packet of the reply's size, with what the buffer holds.
abbrev holding : ℕ → List ℕ → Packet
holding size buf = record blank { buf = buf; size = size; pos = 9 }

abbrev magic : List ℕ
magic = 0x42 ∷ 0x59 ∷ []

abbrev command : List ℕ
command = be_bytes 2 server_cmd_data_rep

-- The header without its length and its check code, then eight bytes.
abbrev body_from : ℕ → List ℕ → List ℕ → List ℕ
body_from code body rest = magic ++ (1 ∷ 1 ∷ command) ++ (code ∷ (body ++ rest))

module _ (rest : List ℕ) (split : zeros ≡ replicate 17 0 ++ rest) where
  begun :
      Packet.begin server_cmd_data_rep blank
      ≡ some (holding 9 (0 ∷ 0 ∷ body_from 0 (replicate 8 0) rest))
  unfolding Packet.begin
  begun =
      bind_some _
        (bind_some _ (store-inside zeros (0 ∷ 0 ∷ []) (0 ∷ 0 ∷ []) _ magic 2 split refl refl) refl)
        (bind_some _
          (bind_some _ (store-inside _ (0 ∷ 0 ∷ magic) (0 ∷ []) _ (1 ∷ []) 4 refl refl refl) refl)
          (bind_some _
            (bind_some _
              (store-inside _ (0 ∷ 0 ∷ magic ++ (1 ∷ [])) (0 ∷ []) _ (1 ∷ []) 5 refl refl refl)
              refl)
            (bind_some _
              (bind_some _
                (store-inside _ (0 ∷ 0 ∷ magic ++ (1 ∷ 1 ∷ [])) (0 ∷ 0 ∷ []) _ command 6 refl refl
                  refl)
                refl)
              refl)))

  written :
      (event_id : ℕ)
      → Packet.write_ulong event_id (holding 9 (0 ∷ 0 ∷ body_from 0 (replicate 8 0) rest))
        ≡ some (true, holding 17 (0 ∷ 0 ∷ body_from 0 (be_bytes 8 event_id) rest))
  unfolding Packet.write_ulong Packet.write
  written event_id =
      bind_some _
        (bind_some _
          (store-inside _ (0 ∷ 0 ∷ body_from 0 [] []) (replicate 8 0) rest (be_bytes 8 event_id) 9
            refl refl refl)
          refl)
        refl

  ended :
      (body : List ℕ)
      → Packet.end (holding 17 (0 ∷ 0 ∷ body_from 0 body rest))
        ≡ some (holding 17 (raw_frame 15 server_cmd_data_rep 0 body ++ rest))
  unfolding Packet.end
  ended body =
      bind_some _
        (bind_some _ (store-inside _ [] (0 ∷ 0 ∷ []) _ (be_bytes 2 15) 0 refl refl refl) refl)
        (bind_some _
          (store-inside _ (be_bytes 2 15 ++ magic ++ (1 ∷ 1 ∷ command)) (0 ∷ []) _ (0 ∷ []) 8 refl
            refl refl)
          refl)

  encrypted :
      (body : List ℕ)
      → length body ≡ 8
      → (q : Packet) × (Packet.encrypt_buffer
            (holding 17 (raw_frame 15 server_cmd_data_rep 0 body ++ rest))
          ≡ some (8, q))
        × (q.buf ≡ frame send_byte_map server_cmd_data_rep body ++ rest)
        × (q.size ≡ 17)
  unfolding Packet.encrypt_buffer
  encrypted body eight =
      let header : List ℕ = be_bytes 2 15 ++ magic ++ (1 ∷ 1 ∷ command) in
      let out : ℕ × List ℕ = encode_loop send_byte_map 0 body in
      let code : out.0 ≡ u8 (sum body) = omega (arith, encode_loop_code send_byte_map 0 body) in
      let same : out.1 ≡ map (at send_byte_map) body = encode_loop_out send_byte_map 0 body in
      let field : ◌≡◌ {A = ℕ} 15 (length body + 7) = omega arith in
      (
        record (holding 17 (header ++ (negate out.0 ∷ (out.1 ++ rest)))) { is_check_code = true },
        bind_some _
            (get_body_length_lem (holding 17 (raw_frame 15 server_cmd_data_rep 0 body ++ rest)) 15
              server_cmd_data_rep 0 body rest refl (omega arith))
            (bind_some _ (load-append _ (header ++ (0 ∷ [])) body rest 9 8 refl refl (sym eight)) (
              bind_some _
                (bind_some _
                  (store-inside _ (header ++ (0 ∷ [])) body rest out.1 9 refl refl
                    (length-encode_loop send_byte_map 0 body))
                  refl)
                (bind_some _
                  (bind_some _
                    (store-inside _ header (0 ∷ []) (out.1 ++ rest) (negate out.0 ∷ []) 8 refl refl
                      refl)
                    refl)
                  refl))),
        (λ i. raw_frame (field i) server_cmd_data_rep (negate (code i)) (same i) ++ rest),
        refl,
      )

-- The reply to any event is the frame of the command SERVER_CMD_DATA_REP and the event's number in
-- eight bytes, substituted by the server's sending table.
pub reply-frame :
    (event_id : ℕ)
    → reply event_id ≡ some (frame send_byte_map server_cmd_data_rep (be_bytes 8 event_id))
unfolding reply
reply-frame event_id =
    let (rest, split) = zeros_split in
    let (q, done, buf, size) = encrypted rest split (be_bytes 8 event_id) refl in
    bind_some _ (begun rest split) (
      bind_some _ (written rest split event_id) (
        bind_some _ (ended rest split (be_bytes 8 event_id)) (
          bind_some _ done (
            load-append q.buf [] (frame send_byte_map server_cmd_data_rep (be_bytes 8 event_id))
              rest 0 q.size buf refl size))))
