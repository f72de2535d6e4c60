-- ===== src/Server/ClientUnit/Events/Listening.antt =====
-- `InputNotify`: whether the connection is kept, and whether it still waits for input.
use order_sync.Base.{
  bind_inv, ℕ, zero, suc, ◌≡◌, ◌⊎◌, inl, inr, refl, ◌∙◌, List, [], ◌∷◌, ◌++◌, Option, none, some,
  Bool, true, arith, length, drop, ◌==◌, if◌then◌else◌, ◌>>=◌, Option-cases, Bool-cases, ◌&&◌,
  get_or,
}
use order_sync.Server.Packet
use order_sync.Server.Packet.{Packet}
use order_sync.Server.ClientUnit.Requests.{Parsed}
use order_sync.Server.ClientUnit.{
  blank, ClientUnit, DecodeStatus, SendOutcome, RecvOutcome, Input, packet, wait, invalid, send,
  handle_input, handle_input_buf, cmd_data_handler, client_cmd_data_req, drain, data_flow, reply,
  fatal, wait_head, wait_content,
}
use order_sync.Server.ClientUnit.Defs.{
  data_err, head_done, content_done, done, disconnect_by_user, received, failed, retry, other,
}
use order_sync.Server.ClientUnit.Events.{
  answer_policy, same_bytes, policy_request, proc_pkg, stage_of, recv, web_input, input_notify,
}

Input-cases : (i : Input) → (i ≡ wait) ⊎ ((i ≡ invalid) ⊎ ((n : ℕ) × (i ≡ packet n)))
Input-cases wait = inl refl
Input-cases invalid = inr (inl refl)
Input-cases (packet n) = inr (inr (n, refl))

module _ (order_id : List ℕ → Parsed) (kernel : ℕ → ℕ → SendOutcome) where
  send_listens :
      (u v : ClientUnit) (n : ℕ) → send kernel u ≡ (some n, v) → v.input_enabled ≡ u.input_enabled
  unfolding send
  send_listens u v n e = ground (arith, e)

  cmd_data_handler_listens :
      (p : Packet) (u v : ClientUnit) (n : ℕ)
      → cmd_data_handler order_id kernel p u ≡ some (some n, v)
      → v.input_enabled ≡ u.input_enabled
  unfolding cmd_data_handler
  cmd_data_handler_listens p u v n e =
      let (id, at_id, e₁) = bind_inv (Packet.read_int p) _ _ e in
      let (event, at_event, e₂) = bind_inv (Packet.read_ulong id.1) _ _ e₁ in
      let (text, at_text, e₃) = bind_inv (Packet.read_string event.1) _ _ e₂ in
      let (flow, at_flow, e₄) = bind_inv (data_flow order_id text.0 u.shards) _ _ e₃ in
      let (bytes, at_reply, e₅) = bind_inv (reply event.0) _ _ e₄ in
      send_listens (record u { clients = id.0 ∷ u.clients; shards = flow.1; w = u.w ++ bytes }) v n
        (ground (arith, e₅))

  handle_input_buf_listens :
      (source : List ℕ) (size : ℕ) (u v : ClientUnit) (n : ℕ)
      → handle_input_buf order_id kernel source size u ≡ some (some n, v)
      → v.input_enabled ≡ u.input_enabled
  unfolding handle_input_buf
  handle_input_buf_listens source size u v n e =
      let (p, copied, e₁) = bind_inv (Packet.copy source size blank) _ _ e in
      let (d, decrypted, e₂) = bind_inv (Packet.decrypt_buffer p.1) _ _ e₁ in
      elim (Option-cases d.0) [
        | inl refused ↦ absurd (ground (arith, e₂, refused))
        | inr (k, good) ↦
            let e₃ : ◌≡◌ {A = Option (Option ℕ × ClientUnit)}
                (Packet.get_cmd_type d.1 >>= λ cmd.
                  if cmd == client_cmd_data_req
                  then cmd_data_handler order_id kernel d.1 u
                  else some (none, u))
                (some (some n, v)) =
              ground (arith, e₂, good) in
            let (cmd, known, e₄) = bind_inv (Packet.get_cmd_type d.1) _ _ e₃ in
            elim (Bool-cases (cmd == client_cmd_data_req)) [
              | inl data_req ↦ cmd_data_handler_listens d.1 u v n (ground (arith, e₄, data_req))
              | inr other_cmd ↦ absurd (ground (arith, e₄, other_cmd))
            ]
      ]

  -- While the loop waits for more, the poller's flag for input is as it was.
  drain_listens :
      (fuel : ℕ) (u v : ClientUnit) (d : DecodeStatus)
      → drain order_id kernel fuel u ≡ some (d, v)
      → (d ≡ fatal) ⊎ (((d ≡ wait_head) ⊎ (d ≡ wait_content)) × (v.input_enabled ≡ u.input_enabled))
  unfolding drain
  drain_listens zero u v d e = ground (arith, e)
  drain_listens (suc fuel) u v d e = elim (Bool-cases (length u.r == 0)) [
    | inl empty ↦ ground (arith, e, empty)
    | inr more ↦ elim (Input-cases (handle_input u.r)) [
      | inl waits ↦ ground (arith, e, more, waits)
      | inr (inl bad) ↦ ground (arith, e, more, bad)
      | inr (inr (n, found)) ↦ elim (Option-cases (handle_input_buf order_id kernel u.r n u)) [
        | inl faults ↦ absurd (ground (arith, e, more, found, faults))
        | inr ((none, w), refused) ↦ ground (arith, e, more, found, refused)
        | inr ((some k, w), served) ↦
            let same : w.input_enabled ≡ u.input_enabled =
              handle_input_buf_listens u.r n u w k served in
            let rest : drain order_id kernel fuel (record w { r = drop n w.r }) ≡ some (d, v) =
              ground (arith, e, more, found, served) in
            elim (drain_listens fuel (record w { r = drop n w.r }) v d rest) [
              | inl bad ↦ inl bad
              | inr (waits, kept) ↦ inr (waits, kept ∙ same)
            ]
      ]
    ]
  ]

  answer_policy-fatal :
      (bytes : List ℕ) (u : ClientUnit)
      → (answer_policy order_id kernel bytes u).decode_status ≡ fatal
  unfolding answer_policy
  answer_policy-fatal bytes u = elim (Bool-cases (same_bytes bytes policy_request)) [
    | inl same ↦ rw same refl
    | inr differs ↦ rw differs refl
  ]

  proc_pkg_listens :
      (outcome : RecvOutcome) (u v : ClientUnit)
      → u.input_enabled ≡ true
      → proc_pkg order_id kernel outcome u ≡ some v
      → (v.decode_status ≡ fatal) ⊎ (v.input_enabled ≡ true)
  unfolding proc_pkg
  proc_pkg_listens (failed other) u v h e = ground (arith, e)
  proc_pkg_listens (failed retry) u v h e = ground (arith, e, h)
  proc_pkg_listens (received []) u v h e = ground (arith, e, h)
  proc_pkg_listens (received (b ∷ bs)) u v h e =
      elim (Bool-cases (length (b ∷ bs) == 23 && b == 0x3c && get_or (b ∷ bs) 1 0 == 0x70)) [
        | inl policy ↦ inl (ground (arith, e, policy, answer_policy-fatal (b ∷ bs) u))
        | inr request ↦
            let w : ClientUnit = record u { r = u.r ++ (b ∷ bs) } in
            let e₁ : ◌≡◌ {A = Option ClientUnit}
                (drain order_id kernel (length w.r) w >>= λ d.
                  some (record d.1 { decode_status = d.0 }))
                (some v) =
              ground (arith, e, request) in
            let (d, drained, e₂) = bind_inv (drain order_id kernel (length w.r) w) _ _ e₁ in
            elim (drain_listens (length w.r) w d.1 d.0 drained) [
              | inl bad ↦ inl (ground (arith, e₂, bad))
              | inr (waits, kept) ↦ inr (ground (arith, e₂, kept, h))
            ]
      ]

  stage_of_listens :
      (d : DecodeStatus) (v : ClientUnit)
      → (d ≡ fatal) ⊎ (v.input_enabled ≡ true)
      → (stage_of order_id kernel d v).input_enabled
        ≡ web_input order_id kernel (stage_of order_id kernel d v).stage
  unfolding stage_of web_input
  stage_of_listens fatal v h = refl
  stage_of_listens data_err v h = refl
  stage_of_listens wait_head v h = ground (arith, h)
  stage_of_listens wait_content v h = ground (arith, h)
  stage_of_listens head_done v h = refl
  stage_of_listens content_done v h = refl
  stage_of_listens done v h = ground (arith, h)
  stage_of_listens disconnect_by_user v h = refl

  -- A connection that waits for input gets an input event, and no fault comes of it: it is kept
  -- exactly if it still waits for input, and otherwise deleted.
  pub input_notify_lem :
      (outcome : RecvOutcome) (u v : ClientUnit) (keep : Bool)
      → u.input_enabled ≡ true
      → input_notify order_id kernel outcome u ≡ some (keep, v)
      → v.input_enabled ≡ keep
  unfolding input_notify recv
  input_notify_lem outcome u v keep h e =
      let (w, received_all, e₁) = bind_inv (recv order_id kernel outcome u) _ _ e in
      let (x, processed, e₂) = bind_inv (proc_pkg order_id kernel outcome u) _ _ received_all in
      let staged = stage_of_listens x.decode_status x (proc_pkg_listens outcome u x h processed) in
      ground (arith, e₁, e₂, staged)
