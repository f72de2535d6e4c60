-- ===== src/Server/ClientUnit/Undersized.antt =====
-- A packet whose length field is less than the rest of the header.
use order_sync.Base.{
  ℕ, suc, ◌+◌, ◌-◌, ◌≤◌, ◌<◌, ◌≡◌, refl, sym, ap, ◌∙◌, List, [], ◌∷◌, ◌++◌, Option, none, some,
  arith, length, drop, take, u16, be_bytes, swap_bytes, of_le, swap_bytes-be_bytes, bind_some,
  load-append, load_inside, load_outside, take-append-drop, length-append, length-take, length-drop,
  ◌>>=◌, get_or,
}
use order_sync.Server.Packet.{Packet, zeros, get_body_length, get_check_code, decrypt_buffer}
use order_sync.Server.Packet.Receive.{copy_lem, length-zeros}
use order_sync.Server.ClientUnit.Requests.{Parsed}
use order_sync.Server.ClientUnit.{
  ClientUnit, SendOutcome, packet, handle_input, handle_input_buf, blank, drain,
}
use order_sync.Server.ClientUnit.Framing.{handle_input_whole}

bind_none : {A B : Type 0} {m : Option A} (f : A → Option B) → m ≡ none → (m >>= f) ≡ none
bind_none f e = rw e refl

-- The size of the data wraps, and the loop over them leaves the buffer.
decrypt_buffer_outside :
    (p : Packet) (n : ℕ) (rest : List ℕ)
    → p.buf ≡ be_bytes 2 n ++ rest
    → n < 7
    → 9 ≤ length p.buf
    → length p.buf ≤ 8192
    → decrypt_buffer p ≡ none
unfolding decrypt_buffer get_body_length get_check_code
decrypt_buffer_outside p n rest held few long fits =
    bind_some _
      (bind_some _ (load-append p.buf [] (be_bytes 2 n) rest 0 2 held refl refl)
        (ap some (swap_bytes-be_bytes 2 n (omega (arith, few)))))
      (bind_some _ (bind_some _ (load_inside p.buf 8 1 (omega (arith, long))) refl)
        (bind_none _ (load_outside p.buf 9 (u16 (n + 65536 - 7)) (omega (arith, few, fits)))))

module _ (order_id : List ℕ → Parsed) (kernel : ℕ → ℕ → SendOutcome) where
  drain_faults :
      (fuel n : ℕ) (u : ClientUnit)
      → 0 < length u.r
      → handle_input u.r ≡ packet n
      → handle_input_buf order_id kernel u.r n u ≡ none
      → drain order_id kernel (suc fuel) u ≡ none
  unfolding drain
  drain_faults fuel n u more found fault = ground (arith, more, found, fault)

  -- Nine bytes or more with a length field below 7 and "BY" behind it: the loop takes them for a
  -- packet, and in decrypting it leaves the packet's buffer.
  pub drain_undersized :
      (fuel n : ℕ) (u : ClientUnit) (rest : List ℕ)
      → n < 7
      → 5 ≤ length rest
      → u.r ≡ be_bytes 2 n ++ (0x42 ∷ 0x59 ∷ rest)
      → drain order_id kernel (suc fuel) u ≡ none
  unfolding handle_input_buf
  drain_undersized fuel n u rest few long held =
      let tail : List ℕ = 0x42 ∷ 0x59 ∷ rest in
      let bytes : List ℕ = be_bytes 2 n ++ take n tail in
      let size : length u.r ≡ 4 + length rest = omega (arith, ap length held) in
      let split : u.r ≡ bytes ++ drop n tail =
        held ∙ ap (λ t. be_bytes 2 n ++ t) (sym (take-append-drop n tail)) in
      let room : length bytes ≡ 2 + n = omega (arith, length-take n tail, few, long) in
      let block : List ℕ = bytes ++ drop (length bytes) zeros in
      let full : length block ≡ 8192 = omega (
        arith,
        length-append bytes (drop (length bytes) zeros),
        length-drop (length bytes) zeros,
        length-zeros,
        room,
        few,
      ) in
      drain_faults fuel (2 + n) u (omega (arith, size))
        (handle_input_whole u.r n (omega (arith, size, long)) (ap (λ b. get_or b 2 0) held)
          (ap (λ b. get_or b 3 0) held)
          (ap (λ b. swap_bytes 2 (of_le (take 2 b))) held
            ∙ swap_bytes-be_bytes 2 n (omega (arith, few)))
          (omega (arith, few)) (omega (arith, few, size, long)))
        (bind_some _
          (copy_lem blank u.r bytes (drop n tail) (2 + n) split (sym room) (omega (arith, few)))
          (bind_none _ (
            decrypt_buffer_outside (record blank { buf = block; size = 2 + n; pos = 9 }) n
              (take n tail ++ drop (length bytes) zeros) refl few (omega (arith, full))
              (omega (arith, full)))))
