-- ===== src/Server/GameUnit/Delivering.antt =====
-- `CGameUnit::process_pkg` on whole packets, with a client whose socket is open.
use order_sync.Base.{
  ℕ, zero, suc, ◌+◌, ◌≤◌, ◌<◌, ◌≡◌, ◌≢◌, refl, sym, ap, ◌∙◌, List, [], ◌∷◌, ◌++◌, Option, some,
  Bool, true, false, arith, length, take, drop, All, load, append_assoc, append-nil, length-append,
  length-drop, drop-append, take-append_le, drop-append_le, load_inside, bind_some, inl, inr,
  load-append, le→not_ltb, swap_bytes, of_le, ne→not_==, ltb, ◌⊎◌, if◌then◌else◌,
}
use order_sync.Server.Packet.{Packet, zeros, copy, get_cmd_type}
use order_sync.Server.Packet.Receive.{copy_lem}
use order_sync.Server.ClientUnit.{ClientUnit, SendOutcome, length_field, blank}
use order_sync.Server.ClientUnit.Sending.{IsOpen, send-IsOpen, send_conserves}
use order_sync.Server.GameUnit.{
  GameUnit, forward, after_cmd, passed, pass, process_pkg, is_sent, is_fatal, logout_success,
  change_gameserver,
}
use order_sync.Server.GameUnit.Passing.{IsPartial}

abbrev pub cmd_of : List ℕ → ℕ
cmd_of bytes = swap_bytes 2 (of_le (take 2 (drop 6 bytes)))

-- A whole packet, of a size that the buffer holds, for the client alone.
pub record IsForClient (p : List ℕ) : Type 0 where
  pub whole : length p ≡ 2 + length_field p
  pub large : 9 ≤ length p
  pub small : length p ≤ 8192
  pub stays : cmd_of p ≢ logout_success
  pub same_server : cmd_of p ≢ change_gameserver

abbrev pub concat : List (List ℕ) → List ℕ
concat [] = []
concat (p ∷ ps) = p ++ concat ps

length_field-append : (p more : List ℕ) → 2 ≤ length p → length_field (p ++ more) ≡ length_field p
length_field-append p more h = ap (λ b. swap_bytes 2 (of_le b)) (take-append_le 2 p more h)

get_cmd_type-append :
    (q : Packet) (p more : List ℕ)
    → q.buf ≡ p ++ more
    → 9 ≤ length p
    → get_cmd_type q ≡ some (cmd_of p)
unfolding get_cmd_type
get_cmd_type-append q p more held h =
    bind_some _
      (load_inside q.buf 6 2 (omega (arith, ap length held, length-append p more))
        ∙ ap some (
            ap (λ b. take 2 (drop 6 b)) held
            ∙ ap (take 2) (drop-append_le 6 p more (omega arith))
            ∙ take-append_le 2 (drop 6 p) more (omega (arith, length-drop 6 p))))
      refl

module _ (kernel : ℕ → ℕ → SendOutcome) where
  forward-IsOpen :
      (q : Packet) (c : ClientUnit) (p : List ℕ)
      → IsOpen kernel
      → is_fatal c.stage ≡ false
      → c.w ≡ []
      → load q.buf 0 q.size ≡ some p
      → 0 < length p
      → (v : ClientUnit) × (forward kernel q (some c) ≡ some (true, some v))
        × (v.sent ≡ c.sent ++ p)
        × (v.w ≡ [])
        × (is_fatal v.stage ≡ false)
  unfolding forward is_sent is_fatal
  forward-IsOpen q c p takes alive empty loaded some_bytes =
      let u : ClientUnit = record c { w = c.w ++ p } in
      let (n, v, done, w, sent, r, shards) =
        send-IsOpen kernel u takes (omega (arith, length-append c.w p)) in
      (
        v,
        ground (arith, alive, loaded, done),
        sent ∙ ap (λ b. c.sent ++ (b ++ p)) empty,
        w,
        elim (send_conserves kernel u v n done).2 [
          | inl h ↦ ap is_fatal h.0
          | inr h ↦ ap is_fatal h.0
        ],
      )

  -- A packet for the client.
  pass-IsOpen :
      (g : GameUnit) (c : ClientUnit) (p more : List ℕ)
      → IsOpen kernel
      → IsForClient p
      → g.client ≡ some c
      → is_fatal c.stage ≡ false
      → c.w ≡ []
      → g.link.r ≡ p ++ more
      → (v : ClientUnit) × (pass kernel (length p) g
          ≡ some (true, false, record { link = record g.link { r = more }; client = some v }))
        × (v.sent ≡ c.sent ++ p)
        × (v.w ≡ [])
        × (is_fatal v.stage ≡ false)
  unfolding pass passed after_cmd
  pass-IsOpen g c p more takes h is_c alive empty held =
      let q : Packet = record {
        buf = p ++ drop (length p) zeros;
        size = length p;
        pos = 9;
        is_check_code = false;
      } in
      let copied : copy g.link.r (length p) blank ≡ some (true, q) =
        copy_lem blank g.link.r p more (length p) held refl h.small in
      let told : get_cmd_type q ≡ some (cmd_of p) =
        get_cmd_type-append q p (drop (length p) zeros) refl h.large in
      let loaded : load q.buf 0 q.size ≡ some p =
        load-append q.buf [] p (drop (length p) zeros) 0 (length p) refl refl refl in
      let (v, forwarded, sent, w, alive') =
        forward-IsOpen q c p takes alive empty loaded (omega (arith, h.large)) in
      let rest : drop (length p) g.link.r ≡ more =
        ap (drop (length p)) held ∙ drop-append (length p) p more refl in
      let after : after_cmd kernel (cmd_of p) q (record g.link { r = drop (length p) g.link.r })
          ≡ some (false, record g.link { r = more }) =
        rw
          (
            ne→not_== (cmd_of p) logout_success h.stays,
            ne→not_== (cmd_of p) change_gameserver h.same_server,
          )
          (ap (λ b. some (false, record g.link { r = b })) rest) in
      (
        v,
        bind_some _ copied (
            bind_some _ told
              (bind_some _ (ap (forward kernel q) is_c ∙ forwarded) (bind_some _ after refl))),
        sent,
        w,
        alive',
      )

  stopped :
      (c : ClientUnit) (g : GameUnit) (tail : List ℕ)
      → g.client ≡ some c
      → g.link.r ≡ tail
      → ◌≡◌ {A = Option (Bool × GameUnit)}
          (some (true, g))
          (some (true, record { link = record g.link { r = tail }; client = some c }))
  stopped c g tail is_c held =
      ap (λ (x : Option ClientUnit). some (true, record g { client = x })) is_c
      ∙ ap (λ b. some (true, record { link = record g.link { r = b }; client = some c })) held

  -- The tests of the loop on the beginning of a packet.
  waits :
      (size field : ℕ) (stop failed more : Option (Bool × GameUnit))
      → (size < 9) ⊎ (size < 2 + field)
      → field ≤ 10240
      → (if ltb size 9
          then stop
          else if ltb 10240 field
          then failed
          else if ltb size (2 + field)
          then stop
          else more)
        ≡ stop
  waits size field stop failed more h sane = ground (arith, h, sane)

  -- With a client whose socket takes whatever it is given, which is in no error and has nothing waiting:
  -- from whole packets for the client, each of at most 8192 bytes, and then at most the beginning of a
  -- packet, `process_pkg` sends the client all the packets, as they are and in order, keeps the
  -- beginning, and returns 0.
  pub process_pkg_delivers :
      (fuel : ℕ) (ps : List (List ℕ)) (g : GameUnit) (c : ClientUnit) (tail : List ℕ)
      → IsOpen kernel
      → All IsForClient ps
      → g.client ≡ some c
      → is_fatal c.stage ≡ false
      → c.w ≡ []
      → g.link.r ≡ concat ps ++ tail
      → IsPartial tail
      → length_field tail ≤ 10240
      → length ps ≤ fuel
      → (v : ClientUnit) × (process_pkg kernel fuel g
          ≡ some (true, record { link = record g.link { r = tail }; client = some v }))
        × (v.sent ≡ c.sent ++ concat ps)
        × (v.w ≡ [])
  unfolding process_pkg
  process_pkg_delivers zero [] g c tail takes hs is_c alive empty held partial sane enough =
      (c, stopped c g tail is_c held, sym (append-nil c.sent), empty)
  process_pkg_delivers (suc fuel) [] g c tail takes hs is_c alive empty held partial sane enough = (
    c,
    waits (length g.link.r) (length_field g.link.r) _ _ _
          (elim partial [
            | inl h ↦ inl (omega (arith, ap length held, h))
            | inr h ↦ inr (omega (arith, ap length held, ap length_field held, h))
          ])
          (omega (arith, ap length_field held, sane))
        ∙ stopped c g tail is_c held,
    sym (append-nil c.sent),
    empty,
  )
  process_pkg_delivers zero (p ∷ ps) g c tail takes hs is_c alive empty held partial sane enough =
      absurd (omega arith)
  process_pkg_delivers (suc fuel) (p ∷ ps) g c tail takes hs is_c alive empty held partial sane
        enough =
      let more : List ℕ = concat ps ++ tail in
      let split : g.link.r ≡ p ++ more = held ∙ append_assoc p (concat ps) tail in
      let h : IsForClient p = hs.0 in
      let field : length_field g.link.r ≡ length_field p =
        ap length_field split ∙ length_field-append p more (omega (arith, h.large)) in
      let n : 2 + length_field g.link.r ≡ length p = omega (arith, field, h.whole) in
      let size : length g.link.r ≡ length p + length more =
        ap length split ∙ length-append p more in
      let (v, done, sent, w, alive') = pass-IsOpen g c p more takes h is_c alive empty split in
      let (v', rest, sent', w') =
        process_pkg_delivers fuel ps (record { link = record g.link { r = more }; client = some v })
          v tail takes hs.1 refl alive' w refl partial sane (omega arith) in
      (
        v',
        rw
            (
              le→not_ltb (length g.link.r) 9 (omega (arith, size, h.large)),
              le→not_ltb 10240 (length_field g.link.r) (omega (arith, n, h.small)),
              le→not_ltb (length g.link.r) (2 + length_field g.link.r) (omega (arith, size, n)),
              n,
            )
            (bind_some _ done rest),
        sent' ∙ ap (λ b. b ++ concat ps) sent ∙ append_assoc c.sent p (concat ps),
        w',
      )
