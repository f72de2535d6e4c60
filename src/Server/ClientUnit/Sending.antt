-- ===== src/Server/ClientUnit/Sending.antt =====
-- `CClientUnit::send`: what is sent, what is kept, and when the connection is given up.
use order_sync.Base.{
  ℕ, zero, suc, ◌+◌, ◌≤◌, ◌<◌, ◌≡◌, ◌⊎◌, refl, ap, ◌∙◌, List, [], ◌++◌, some, none, true, false,
  arith, length, take, drop, take-append-drop, append_assoc, drop_all, take_all, length-drop,
}
use order_sync.Server.ClientUnit.Defs.{
  ClientUnit, SendOutcome, accepted, refused, retry, send, fatal_error, send_done, data_sending,
}

-- What the peer has and what is still to send.
abbrev pub output : ClientUnit → List ℕ
output u = u.sent ++ u.w

module _ (kernel : ℕ → ℕ → SendOutcome) where
  -- If `send` returns a number, nothing is lost or sent twice, and the poller waits for the socket
  -- exactly when bytes are left; the bytes received are as they were.
  pub send_conserves :
      (u v : ClientUnit) (n : ℕ)
      → send kernel u ≡ (some n, v)
      → (output v ≡ output u)
        × (v.r ≡ u.r)
        × (((v.stage ≡ send_done) × (v.w ≡ []) × (v.output_enabled ≡ false))
            ⊎ ((v.stage ≡ data_sending) × (0 < length v.w) × (v.output_enabled ≡ true)))
  unfolding send
  send_conserves u v n e = ground (
    arith,
    append_assoc u.sent (take n u.w) (drop n u.w),
    take-append-drop n u.w,
    drop_all n u.w,
    length-drop n u.w,
  )

  -- If `send` returns -1 the connection is in its error state, waits for no output, and has sent
  -- nothing more.
  pub send_fails :
      (u v : ClientUnit)
      → send kernel u ≡ (none, v)
      → (v.stage ≡ fatal_error) × (v.output_enabled ≡ false) × (v.sent ≡ u.sent)
  unfolding send
  send_fails u v e = ground arith

-- A socket that takes whatever it is given.
abbrev pub IsOpen : (ℕ → ℕ → SendOutcome) → Type 0
IsOpen kernel = (c n : ℕ) → kernel c n ≡ accepted n

pub send-IsOpen :
    (kernel : ℕ → ℕ → SendOutcome) (u : ClientUnit)
    → IsOpen kernel
    → 0 < length u.w
    → (n : ℕ) × (v : ClientUnit) × (send kernel u ≡ (some n, v))
      × (v.w ≡ [])
      × (v.sent ≡ u.sent ++ u.w)
      × (v.r ≡ u.r)
      × (v.shards ≡ u.shards)
unfolding send
send-IsOpen kernel u takes more = (
  length u.w,
  record u {
    calls = u.calls + 1;
    w = drop (length u.w) u.w;
    sent = u.sent ++ take (length u.w) u.w;
    send_error_times = 0;
    output_enabled = false;
    stage = send_done;
  },
  ground (arith, takes u.calls (length u.w)),
  drop_all (length u.w) u.w (omega arith),
  ap (λ b. u.sent ++ b) (take_all (length u.w) u.w (omega arith)),
  refl,
  refl,
)

-- The connection after `n` sends, one at each output event.
pub send_times : (ℕ → ℕ → SendOutcome) → ℕ → ClientUnit → ClientUnit
send_times kernel zero u = u
send_times kernel (suc n) u = send_times kernel n (send kernel u).1

-- A socket that takes nothing: the kernel answers EAGAIN, EINTR or EINPROGRESS for ever.
abbrev pub IsStuck : (ℕ → ℕ → SendOutcome) → Type 0
IsStuck kernel = (c n : ℕ) → kernel c n ≡ refused retry

send_refused :
    (kernel : ℕ → ℕ → SendOutcome) (u : ClientUnit)
    → IsStuck kernel
    → 0 < length u.w
    → u.send_error_times < 49
    → ((send kernel u).1.w ≡ u.w) × ((send kernel u).1.send_error_times ≡ u.send_error_times + 1)
unfolding send
send_refused kernel u stuck more few = ground (arith, stuck u.calls (length u.w))

send_last :
    (kernel : ℕ → ℕ → SendOutcome) (u : ClientUnit)
    → IsStuck kernel
    → 0 < length u.w
    → u.send_error_times ≡ 49
    → ((send kernel u).1.stage ≡ fatal_error)
      × ((send kernel u).1.w ≡ [])
      × ((send kernel u).1.input_enabled ≡ false)
unfolding send
send_last kernel u stuck more last = ground (arith, stuck u.calls (length u.w))

send_times_waits :
    (kernel : ℕ → ℕ → SendOutcome) (n : ℕ) (u : ClientUnit)
    → IsStuck kernel
    → 0 < length u.w
    → u.send_error_times + n ≤ 49
    → ((send_times kernel n u).w ≡ u.w)
      × ((send_times kernel n u).send_error_times ≡ u.send_error_times + n)
unfolding send_times
send_times_waits kernel zero u stuck more few = (refl, omega arith)
send_times_waits kernel (suc n) u stuck more few =
    let (same, one) = send_refused kernel u stuck more (omega arith) in
    let (same', rest) =
      send_times_waits kernel n (send kernel u).1 stuck (omega (arith, ap length same))
        (omega arith) in
    (same' ∙ same, omega arith)

send_times-suc :
    (kernel : ℕ → ℕ → SendOutcome) (n : ℕ) (u : ClientUnit)
    → send_times kernel (suc n) u ≡ (send kernel (send_times kernel n u)).1
unfolding send_times
send_times-suc kernel zero u = refl
send_times-suc kernel (suc n) u = send_times-suc kernel n (send kernel u).1

-- A connection with bytes to send and no send error so far, whose socket takes nothing: it keeps the
-- bytes through 49 sends, and the 50th gives it up, with its state fatal, its buffer emptied and its
-- input disabled.
pub send_times_gives_up :
    (kernel : ℕ → ℕ → SendOutcome) (u : ClientUnit)
    → IsStuck kernel
    → 0 < length u.w
    → u.send_error_times ≡ 0
    → ((send_times kernel 49 u).w ≡ u.w)
      × ((send_times kernel 50 u).stage ≡ fatal_error)
      × ((send_times kernel 50 u).w ≡ [])
      × ((send_times kernel 50 u).input_enabled ≡ false)
send_times_gives_up kernel u stuck more none_yet =
    let (same, count) = send_times_waits kernel 49 u stuck more (omega arith) in
    let last =
      send_last kernel (send_times kernel 49 u) stuck (omega (arith, ap length same))
        (omega arith) in
    let step = send_times-suc kernel 49 u in
    (
      same,
      ap (λ v. v.stage) step ∙ last.0,
      ap (λ v. v.w) step ∙ last.1,
      ap (λ v. v.input_enabled) step ∙ last.2,
    )
