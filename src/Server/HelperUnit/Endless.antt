-- ===== src/Server/HelperUnit/Endless.antt =====
-- `CHelperUnit::process_pkg` on a packet whose command it does not know.
use order_sync.Base.{
  ℕ, zero, suc, ◌+◌, ◌≤◌, ◌<◌, ◌≡◌, ◌≢◌, refl, ap, ◌∙◌, List, ◌++◌, Option, none, some, false,
  arith, length, drop, length-append, bind_some, le→not_ltb, ne→not_==, swap_bytes-be_bytes,
}
use order_sync.Wire.Frame.{raw_frame}
use order_sync.Server.Packet.{Packet, zeros}
use order_sync.Server.Packet.Receive.{copy_lem, get_cmd_type_lem, decrypt_buffer_lem}
use order_sync.Server.ClientUnit.{length_field, blank}
use order_sync.Server.HelperUnit.{
  HelperUnit, obey, take_packet, process_pkg, inter_cmd_res, waiter_stat_res, notify_stat_res,
}

module _ (parse : List ℕ → Option (List ℕ)) (h : HelperUnit) (cmd code : ℕ) (body more : List ℕ)
    (held : h.link.r ≡ raw_frame (length body + 7) cmd code body ++ more)
    (fits : length body + 9 ≤ 8192) (word : cmd < 65536) where
  unknown-obey :
      (n : ℕ) (p : Packet)
      → cmd ≢ inter_cmd_res
      → cmd ≢ waiter_stat_res
      → cmd ≢ notify_stat_res
      → obey parse cmd n p h ≡ some h
  unfolding obey
  unknown-obey n p a b c =
      rw
        (
          ne→not_== cmd inter_cmd_res a,
          ne→not_== cmd waiter_stat_res b,
          ne→not_== cmd notify_stat_res c,
        )
        refl

  field : length_field h.link.r ≡ length body + 7
  field = ap length_field held ∙ swap_bytes-be_bytes 2 (length body + 7) (omega (arith, fits))

  unknown-take_packet :
      cmd ≢ inter_cmd_res
      → cmd ≢ waiter_stat_res
      → cmd ≢ notify_stat_res
      → take_packet parse (length body + 9) h ≡ some h
  unfolding take_packet
  unknown-take_packet a b c =
      let bytes : List ℕ = raw_frame (length body + 7) cmd code body in
      let rest : List ℕ = drop (length bytes) zeros in
      let p : Packet = record {
        buf = bytes ++ rest;
        size = length body + 9;
        pos = 9;
        is_check_code = false;
      } in
      bind_some _ (copy_lem blank h.link.r bytes more (length body + 9) held (omega arith) fits) (
        bind_some _ (get_cmd_type_lem p (length body + 7) cmd code body rest refl word) (
          bind_some _
            (decrypt_buffer_lem p (length body + 7) cmd code body rest refl refl
              (omega (arith, fits)))
            (unknown-obey (length body + 9) _ a b c)))

  -- On a whole packet of at most 8192 bytes whose command is none of the three that the helper knows,
  -- with whatever behind it, `process_pkg` has not ended after any number of turns: the packet is
  -- never taken off.
  pub process_pkg_endless :
      (fuel : ℕ)
      → cmd ≢ inter_cmd_res
      → cmd ≢ waiter_stat_res
      → cmd ≢ notify_stat_res
      → process_pkg parse fuel h ≡ some (none, h)
  unfolding process_pkg
  process_pkg_endless zero a b c = refl
  process_pkg_endless (suc fuel) a b c =
      let size : length h.link.r ≡ length body + 9 + length more =
        ap length held
        ∙ length-append (raw_frame (length body + 7) cmd code body) more
        ∙ omega arith in
      let n : 2 + length_field h.link.r ≡ length body + 9 = omega (arith, field) in
      rw
        (
          le→not_ltb (length h.link.r) 9 (omega (arith, size)),
          le→not_ltb 10240 (length_field h.link.r) (omega (arith, field, fits)),
          le→not_ltb (length h.link.r) (2 + length_field h.link.r) (omega (arith, size, n)),
          n,
        )
        (bind_some _ (unknown-take_packet a b c) (process_pkg_endless fuel a b c))
