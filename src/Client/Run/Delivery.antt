-- ===== src/Client/Run/Delivery.antt =====
-- What the kernel has taken when an event comes to its end.
use order_sync.Base.{
  some-inj, ℕ, zero, suc, ◌+◌, ◌<◌, ◌≡◌, refl, sym, ap, ◌∙◌, subst, List, [], ◌∷◌, ◌++◌, Option,
  some, true, false, inl, inr, length, take, drop, take-append-drop, take_all, length-drop,
  append-nil, append_assoc, arith, ltb, lt→ltb, le→not_ltb, le_or_lt, ◌==◌, ne→not_==,
  if◌then◌else◌, ◌>>=◌, Bool-cases, bind_inv, leb,
}
use order_sync.Client.Packet.{Packet, Status, ok, fail, parse_packet, read_uint64}
use order_sync.Client.TcpClient.{
  TcpClient, again, in_progress, other, Taken, took, not_taken, Received, got, nothing, Reached,
  more, returned, drop_connection, send_start, send_answer, reconnect, recv,
}
use order_sync.Client.Run.{
  Verdict, Stage, sending, reconnecting, receiving, finished, Loop, Moment, after_send, start_send,
  give_up, judge, after_recv, step, step_at, steps,
}

-- How much of the packet the kernel has taken on the present connection, behind what it took before
-- this send.
abbrev pub At : List ℕ → Stage → TcpClient → Type 0
At wire (sending off) c =
    (base : List ℕ) × (c.current ≡ base ++ take off wire)
    × (off < length wire)
    × (c.is_connected ≡ true)
At wire reconnecting c = c.is_connected ≡ false
At wire receiving c = (base : List ℕ) × (c.current ≡ base ++ wire) × (c.is_connected ≡ true)
At wire (finished v) c = (base : List ℕ) × (c.current ≡ base ++ wire)

take_nil : (k : ℕ) → take {A = ℕ} k [] ≡ []
take_nil zero = refl
take_nil (suc k) = refl

take-take-drop : (n k : ℕ) (xs : List ℕ) → take n xs ++ take k (drop n xs) ≡ take (n + k) xs
take-take-drop zero k xs = ap (λ j. take j xs) (omega arith)
take-take-drop (suc n) k [] = take_nil k ∙ sym (take_nil (suc n + k))
take-take-drop (suc n) k (x ∷ xs) =
    ap (◌∷◌ x) (take-take-drop n k xs)
    ∙ ap (λ j. take j (x ∷ xs)) {x = suc (n + k)} {y = suc n + k} (omega arith)

pub recv_up : (answer : Received) (c : TcpClient) → c.is_connected ≡ true → recv answer c ≡ answer
unfolding recv
recv_up answer c up = rw up refl

module _ (wire : List ℕ) (some_bytes : 0 < length wire) where
  pub start_send-At : (s : Loop) → At wire (start_send wire s).stage (start_send wire s).tcp
  unfolding start_send send_start after_send drop_connection
  start_send-At s = elim (Bool-cases s.tcp.is_connected) [
    | inl up ↦
        rw (up, lt→ltb 0 (length wire) some_bytes)
          (s.tcp.current, sym (append-nil s.tcp.current), some_bytes, refl)
    | inr down ↦ rw down refl
  ]

  after_send-At :
      (off k : ℕ) (s : Loop)
      → At wire (sending off) s.tcp
      → 0 < k
      → let c = record s.tcp { current = s.tcp.current ++ take k (drop off wire) } in
        let r = if ltb (off + k) (length wire) then more (off + k) else returned (off + k) in
        let t = after_send r (record s { tcp = c }) in At wire t.stage t.tcp
  unfolding after_send
  after_send-At off k s (base, held, inside, up) some_taken =
      elim (le_or_lt (length wire) (off + k)) [
        | inl all ↦
            rw
              (
                le→not_ltb (off + k) (length wire) all,
                ne→not_== (off + k) 0 (λ e. omega (arith, e)),
              )
              (
                base,
                ap (λ b. b ++ take k (drop off wire)) held
                    ∙ append_assoc base (take off wire) (take k (drop off wire))
                    ∙ ap (λ b. base ++ (take off wire ++ b))
                        (take_all k (drop off wire) (omega (arith, length-drop off wire)))
                    ∙ ap (λ b. base ++ b) (take-append-drop off wire),
                up,
              )
        | inr part ↦ rw (lt→ltb (off + k) (length wire) part) (
          base,
          ap (λ b. b ++ take k (drop off wire)) held
              ∙ append_assoc base (take off wire) (take k (drop off wire))
              ∙ ap (λ b. base ++ b) (take-take-drop off k wire),
          part,
          up,
        )
      ]

  pub send_answer-At :
      (off : ℕ) (answer : Taken) (s : Loop)
      → At wire (sending off) s.tcp
      → let (r, c) = send_answer wire off answer s.tcp in
        let t = after_send r (record s { tcp = c }) in At wire t.stage t.tcp
  unfolding send_answer after_send drop_connection
  send_answer-At off (not_taken again) s h = h
  send_answer-At off (not_taken in_progress) s h = refl
  send_answer-At off (not_taken other) s h = refl
  send_answer-At off (took zero) s h = refl
  send_answer-At off (took (suc k)) s h =
      rw (lt→ltb 0 (suc k) (omega arith)) (after_send-At off (suc k) s h (omega arith))

  pub reconnect-At :
      (answer : Reached) (s : Loop)
      → let (up, c) = reconnect answer s.tcp in
        let t = start_send wire (record s { tcp = c }) in At wire t.stage t.tcp
  reconnect-At answer s = start_send-At (record s { tcp = (reconnect answer s.tcp).1 })

  judge-At :
      (malloc : ℕ → Option (List ℕ)) (event_id : ℕ) (bytes : List ℕ) (s t : Loop)
      → At wire receiving s.tcp
      → judge malloc event_id bytes s ≡ some t
      → At wire t.stage t.tcp
  unfolding judge
  judge-At malloc event_id bytes s t (base, held, up) e =
      let ((status, p), parsed, e₁) =
        bind_inv (parse_packet malloc bytes (length bytes) s.input) _ t e in
      judged status p e₁
    where
      judged :
          (status : Status) (p : Packet)
          → ◌≡◌ {A = Option Loop}
              (elim status [
                | fail ↦ some (record s { input = p; stage = finished Verdict.unparsed })
                | ok ↦ read_uint64 p >>= λ r. some (record s {
                  input = r.1;
                  stage = finished (if event_id == r.0 then Verdict.success else Verdict.mismatch);
                })
              ])
              (some t)
          → At wire t.stage t.tcp
      judged fail p e = subst (λ u. At wire u.stage u.tcp) (some-inj e) (base, held)
      judged ok p e =
          let (r, got_it, e₁) = bind_inv (read_uint64 p) _ t e in
          subst (λ u. At wire u.stage u.tcp) (some-inj e₁) (base, held)

  give_up-At : (s : Loop) → At wire (give_up wire s).stage (give_up wire s).tcp
  unfolding give_up
  give_up-At s = start_send-At (record s { tcp = drop_connection s.tcp })

  retry-At :
      (s t : Loop)
      → s.stage ≡ receiving
      → At wire receiving s.tcp
      → ◌≡◌ {A = Option Loop}
          (some (
            if leb s.r_errs 200
            then record s { r_errs = s.r_errs + 1 }
            else give_up wire (record s { r_errs = 0 })))
          (some t)
      → At wire t.stage t.tcp
  retry-At s t at h e =
      subst (λ u. At wire u.stage u.tcp) (some-inj e)
        (elim (Bool-cases (leb s.r_errs 200)) [
          | inl few ↦ rw (few, at) h
          | inr many ↦ rw many (give_up-At (record s { r_errs = 0 }))
        ])

  after_recv-At :
      (malloc : ℕ → Option (List ℕ)) (event_id : ℕ) (answer : Received) (s t : Loop)
      → s.stage ≡ receiving
      → At wire receiving s.tcp
      → after_recv malloc event_id wire answer s ≡ some t
      → At wire t.stage t.tcp
  unfolding after_recv
  after_recv-At malloc event_id (got []) s t at h e =
      subst (λ u. At wire u.stage u.tcp) (some-inj e) (give_up-At s)
  after_recv-At malloc event_id (got (b ∷ bs)) s t at h e =
      judge-At malloc event_id (b ∷ bs) s t h e
  after_recv-At malloc event_id (nothing other) s t at h e =
      subst (λ u. At wire u.stage u.tcp) (some-inj e) (give_up-At s)
  after_recv-At malloc event_id (nothing again) s t at h e = retry-At s t at h e
  after_recv-At malloc event_id (nothing in_progress) s t at h e = retry-At s t at h e

  module _ (malloc : ℕ → Option (List ℕ)) (event_id : ℕ) where
    step_at-At :
        (stage : Stage) (m : Moment) (s t : Loop)
        → s.stage ≡ stage
        → At wire stage s.tcp
        → step_at malloc event_id wire stage m s ≡ some t
        → At wire t.stage t.tcp
    unfolding step_at recv
    step_at-At (sending off) m s t at h e =
        subst (λ u. At wire u.stage u.tcp) (some-inj e) (send_answer-At off m.takes s h)
    step_at-At reconnecting m s t at h e =
        subst (λ u. At wire u.stage u.tcp) (some-inj e) (reconnect-At m.reaches s)
    step_at-At receiving m s t at (base, held, up) e =
        after_recv-At malloc event_id m.gives s t at (base, held, up)
          (ap (λ a. after_recv malloc event_id wire a s) (sym (recv_up m.gives s.tcp up)) ∙ e)
    step_at-At (finished v) m s t at h e = subst (λ u. At wire u.stage u.tcp) (some-inj e) (rw at h)

    pub steps-At :
        (ms : List Moment) (s t : Loop)
        → At wire s.stage s.tcp
        → steps malloc event_id wire ms s ≡ some t
        → At wire t.stage t.tcp
    unfolding steps step
    steps-At [] s t h e = subst (λ u. At wire u.stage u.tcp) (some-inj e) h
    steps-At (m ∷ ms) s t h e =
        let (u, first, rest) = bind_inv (step malloc event_id wire m s) _ t e in
        steps-At ms u t (step_at-At s.stage m s u refl h first) rest

    -- However the kernel answers, an event that is sent and comes to its end has had its whole packet
    -- taken by the kernel on the connection that is then the present one.
    pub steps_delivered :
        (ms : List Moment) (s t : Loop) (v : Verdict)
        → steps malloc event_id wire ms (start_send wire s) ≡ some t
        → t.stage ≡ finished v
        → (base : List ℕ) × (t.tcp.current ≡ base ++ wire)
    steps_delivered ms s t v e over =
        let h : At wire t.stage t.tcp = steps-At ms (start_send wire s) t (start_send-At s) e in
        rw over at h
