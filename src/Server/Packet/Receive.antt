-- ===== src/Server/Packet/Receive.antt =====
-- What the server makes of a frame that it has received: `Copy`, `DecryptBuffer`, the reads.
use order_sync.Base.{
  ℕ, suc, ◌+◌, ◌-◌, ◌≤◌, ◌<◌, ◌≡◌, refl, ap, ◌∙◌, List, [], ◌∷◌, ◌++◌, none, some, true, arith,
  length, drop, replicate, length-replicate, drop-replicate, u16, be_bytes, swap_bytes-be_bytes,
  bind_some, store-append, store-inside, load-append, le→not_ltb, ◌==◌, if◌then◌else◌,
}
use order_sync.Wire.Cipher.{decode_loop, length-decode_loop}
use order_sync.Wire.Frame.{raw_frame}
use order_sync.Server.Tables.{recv_byte_map}
use order_sync.Server.Packet.{
  Packet, buffer_size, zeros, copy, get_body_length, get_check_code, get_cmd_type, decrypt_buffer,
}

pub length-zeros : length zeros ≡ 8192
unfolding zeros
length-zeros = length-replicate {A = ℕ} buffer_size 0

-- Behind a packet that does not fill the buffer stands a NUL.
pub zeros_room : (n : ℕ) → n < 8192 → (rest : List ℕ) × (drop n zeros ≡ 0 ∷ rest)
unfolding zeros
zeros_room n h = (
  replicate (8192 - n - 1) 0,
  drop-replicate n buffer_size 0
      ∙ ap (λ k. replicate k 0) {x = 8192 - n} {y = suc (8192 - n - 1)} (omega arith),
)

pub copy_lem :
    (p : Packet) (source bytes more : List ℕ) (n : ℕ)
    → source ≡ bytes ++ more
    → n ≡ length bytes
    → n ≤ 8192
    → copy source n p
      ≡ some (true, record p { buf = bytes ++ drop (length bytes) zeros; size = n; pos = 9 })
unfolding copy
copy_lem p source bytes more n e l fits = rw (le→not_ltb 8192 n fits) (
    bind_some _ (load-append source [] bytes more 0 n e refl l) (
      bind_some _
        (bind_some _ (store-append zeros [] zeros bytes 0 refl refl (omega (arith, length-zeros)))
          refl)
        refl))

module _ (p : Packet) (n cmd code : ℕ) (body rest : List ℕ)
    (held : p.buf ≡ raw_frame n cmd code body ++ rest) where
  pub get_body_length_lem : n < 65536 → get_body_length p ≡ some n
  unfolding get_body_length
  get_body_length_lem h =
      bind_some _ (load-append p.buf [] (be_bytes 2 n) _ 0 2 held refl refl)
        (ap some (swap_bytes-be_bytes 2 n h))

  pub get_cmd_type_lem : cmd < 65536 → get_cmd_type p ≡ some cmd
  unfolding get_cmd_type
  get_cmd_type_lem h =
      bind_some _
        (load-append p.buf (be_bytes 2 n ++ (0x42 ∷ 0x59 ∷ 1 ∷ 1 ∷ [])) (be_bytes 2 cmd) _ 6 2 held
          refl refl)
        (ap some (swap_bytes-be_bytes 2 cmd h))

  get_check_code_lem : get_check_code p ≡ some code
  unfolding get_check_code
  get_check_code_lem =
      bind_some _
        (load-append p.buf (be_bytes 2 n ++ (0x42 ∷ 0x59 ∷ 1 ∷ 1 ∷ be_bytes 2 cmd)) (code ∷ []) _ 8
          1 held refl refl)
        (ap some (omega arith))

  pub decrypt_buffer_lem :
      n ≡ length body + 7
      → n < 65536
      → let out = decode_loop recv_byte_map code body in
        decrypt_buffer p
        ≡ some (
          if out.0 == 0 then some (length body) else none,
          record p { buf = raw_frame n cmd code out.1 ++ rest },
        )
  unfolding decrypt_buffer
  decrypt_buffer_lem e h =
      let header : List ℕ = be_bytes 2 n ++ (0x42 ∷ 0x59 ∷ 1 ∷ 1 ∷ be_bytes 2 cmd) ++ (code ∷ []) in
      let out : ℕ × List ℕ = decode_loop recv_byte_map code body in
      bind_some _ (get_body_length_lem h) (
        bind_some _ get_check_code_lem (
          bind_some _ (load-append p.buf header body rest 9 _ held refl (omega arith)) (
            bind_some _
              (bind_some _
                (store-inside p.buf header body rest out.1 9 held refl
                  (length-decode_loop recv_byte_map code body))
                refl)
              (ap
                (λ k. some (
                  if out.0 == 0 then some k else none,
                  record p { buf = raw_frame n cmd code out.1 ++ rest },
                ))
                {x = u16 (n + 65536 - 7)} {y = length body} (omega arith)))))
