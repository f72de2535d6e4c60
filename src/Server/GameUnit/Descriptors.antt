-- ===== src/Server/GameUnit/Descriptors.antt =====
-- The life of a `CGameUnit`: which descriptors it leaves open.
use order_sync.Base.{
  ℕ, ◌<◌, ◌≡◌, refl, subst, List, [], ◌∷◌, ◌++◌, Option, some, Bool, true, false, arith, length,
  All, if-either, bind_inv, some-inj, true-ne-false, none-ne-some, ◌≢◌, ◌>>=◌,
}
use order_sync.Server.Net.{Dial}
use order_sync.Server.ClientUnit.{
  ClientUnit, ConnState, idle, SendOutcome, RecvOutcome, received, failed, retry, other, recv_done,
  fatal_error, disconnect, data_recving,
}
use order_sync.Server.Link.{Link}
use order_sync.Server.Link.Held.{held, IsTidy, closed-IsTidy, same-IsTidy}
use order_sync.Server.Link.Tidy.{send_to_cgi-IsTidy, send_to_logic-IsTidy}
use order_sync.Server.GameUnit
use order_sync.Server.GameUnit.{
  GameUnit, new, reset_link, reset_helper, forward, change, after_cmd, passed, pass, process_pkg,
  logout_success, change_gameserver, update_timer, after_process, recv_from_cgi, stop_at, keep,
  timer_notify,
}
use order_sync.Server.GameUnit.Tidiness.{reset_link-IsClosed, process_pkg-IsTidy}

-- What happens to the unit, with the answers of the system calls.
pub data Event : Type 0 where
  send_to_logic : Dial → Bool → SendOutcome → Event
  append_pkg : List ℕ → Event
  input : RecvOutcome → Event
  output : SendOutcome → Event
  hangup timeout destroy : Event

-- The sockets that the kernel gives have positive descriptors.
abbrev pub IsSocket : Event → Type 0
IsSocket (send_to_logic d takes answer) = (fd : ℕ) → d.socket ≡ some fd → 0 < fd
IsSocket _ = Unit

-- False in the result: the unit has been deleted.
unfoldable pub step : (ℕ → ℕ → SendOutcome) → Event → GameUnit → Option (Bool × GameUnit)
step kernel (send_to_logic d takes answer) g =
    some (true, (GameUnit.send_to_logic d takes answer g).1)
step kernel (append_pkg bytes) g = some (true, GameUnit.append_pkg bytes g)
step kernel (input outcome) g = GameUnit.input_notify kernel outcome g
step kernel (output answer) g = GameUnit.output_notify kernel answer g
step kernel hangup g = GameUnit.hangup_notify kernel g
step kernel timeout g = some (GameUnit.timer_notify kernel g)
step kernel destroy g = some (false, reset_helper g)

unfoldable pub run : (ℕ → ℕ → SendOutcome) → List Event → Bool × GameUnit → Option (Bool × GameUnit)
unfolding step
run kernel [] s = some s
run kernel (e ∷ es) (false, g) = some (false, g)
run kernel (e ∷ es) (true, g) = step kernel e g >>= run kernel es

-- A unit that lives is tidy, and one that is deleted has nothing open.
record IsSound (s : Bool × GameUnit) : Type 0 where
  tidy : IsTidy s.1.link
  closed : s.0 ≡ false → s.1.link.opened ≡ []

reset-IsSound : (g : GameUnit) → IsTidy g.link → IsSound (false, reset_helper g)
unfolding reset_helper
reset-IsSound g h =
    let shut = reset_link-IsClosed g.link h.accounted in
    record { tidy = closed-IsTidy (reset_link g.link) shut; closed = λ _. shut.nothing_open }

alive-IsSound : (g : GameUnit) → IsTidy g.link → IsSound (true, g)
alive-IsSound g h = record { tidy = h; closed = λ e. absurd (true-ne-false e) }

module _ (kernel : ℕ → ℕ → SendOutcome) where
  timed-IsTidy : (g v : GameUnit) → IsTidy g.link → update_timer g ≡ some v → IsTidy v.link
  unfolding update_timer
  timed-IsTidy g v h =
      if-either (λ x. x ≡ some v → IsTidy v.link) g.link.has_timer _ _
        (λ _ e.
          subst (λ (u : GameUnit). IsTidy u.link) (some-inj e)
            (same-IsTidy g.link (record g.link { timed = true }) refl refl (λ x. x) h))
        λ _ e. absurd (none-ne-some e)

  moved-IsTidy :
      (g : GameUnit) (stage : ConnState)
      → stage ≢ idle
      → IsTidy g.link
      → IsTidy (record g.link { stage = stage })
  moved-IsTidy g stage busy h =
      same-IsTidy g.link (record g.link { stage = stage }) refl refl (λ e. absurd (busy e)) h

  after_process-IsTidy :
      (s : Bool × GameUnit) → IsTidy s.1.link → IsTidy (after_process kernel s).1.link
  unfolding after_process
  after_process-IsTidy (false, g) h = h
  after_process-IsTidy (true, g) h = moved-IsTidy g recv_done (λ e. ground (arith, e)) h

  recv-IsTidy :
      (outcome : RecvOutcome) (g : GameUnit) (s : Bool × GameUnit)
      → IsTidy g.link
      → recv_from_cgi kernel outcome g ≡ some s
      → IsTidy s.1.link
  unfolding recv_from_cgi stop_at
  recv-IsTidy (failed retry) g s h e =
      subst (λ (r : Bool × GameUnit). IsTidy r.1.link) (some-inj e)
        (moved-IsTidy g data_recving (λ x. ground (arith, x)) h)
  recv-IsTidy (failed other) g s h e =
      subst (λ (r : Bool × GameUnit). IsTidy r.1.link) (some-inj e)
        (moved-IsTidy g fatal_error (λ x. ground (arith, x)) h)
  recv-IsTidy (received []) g s h e =
      subst (λ (r : Bool × GameUnit). IsTidy r.1.link) (some-inj e)
        (moved-IsTidy g disconnect (λ x. ground (arith, x)) h)
  recv-IsTidy (received (b ∷ bs)) g s h e =
      let l : Link = record g.link { r = g.link.r ++ (b ∷ bs) } in
      let (t, done, e₁) =
        bind_inv (process_pkg kernel (length l.r) (record g { link = l })) _ _ e in
      subst (λ (r : Bool × GameUnit). IsTidy r.1.link) (some-inj e₁)
        (after_process-IsTidy t (
          process_pkg-IsTidy kernel (length l.r) (record g { link = l }) t
            (same-IsTidy g.link l refl refl (λ x. x) h) done))

  keep-IsSound : (s : Bool × GameUnit) → IsTidy s.1.link → IsSound (keep kernel s)
  unfolding keep
  keep-IsSound (true, g) h = alive-IsSound g h
  keep-IsSound (false, g) h = reset-IsSound g h

  step-IsSound :
      (event : Event) (g : GameUnit) (s : Bool × GameUnit)
      → IsSocket event
      → IsTidy g.link
      → step kernel event g ≡ some s
      → IsSound s
  unfolding step timer_notify GameUnit.send_to_logic GameUnit.append_pkg GameUnit.input_notify
      GameUnit.output_notify GameUnit.hangup_notify
  step-IsSound (send_to_logic d takes answer) g s positive h e = subst IsSound (some-inj e) (
      alive-IsSound _
        (send_to_logic-IsTidy reset_link reset_link-IsClosed true d takes answer g.link positive h))
  step-IsSound (append_pkg bytes) g s positive h e =
      subst IsSound (some-inj e) (alive-IsSound _ (same-IsTidy g.link _ refl refl (λ x. x) h))
  step-IsSound (input outcome) g s positive h e =
      let (v, timed, e₁) = bind_inv (update_timer g) _ _ e in
      let (t, done, e₂) = bind_inv (recv_from_cgi kernel outcome v) _ _ e₁ in
      subst IsSound (some-inj e₂)
        (keep-IsSound t (recv-IsTidy outcome v t (timed-IsTidy g v h timed) done))
  step-IsSound (output answer) g s positive h e =
      let (v, timed, e₁) = bind_inv (update_timer g) _ _ e in
      subst IsSound (some-inj e₁) (
        keep-IsSound _ (
          send_to_cgi-IsTidy reset_link reset_link-IsClosed answer v.link
            (timed-IsTidy g v h timed)))
  step-IsSound hangup g s positive h e =
      let (v, timed, e₁) = bind_inv (update_timer g) _ _ e in
      let (t, done, e₂) = bind_inv (process_pkg kernel (length v.link.r) v) _ _ e₁ in
      subst IsSound (some-inj e₂) (
        reset-IsSound t.1
          (process_pkg-IsTidy kernel (length v.link.r) v t (timed-IsTidy g v h timed) done))
  step-IsSound timeout g s positive h e = subst IsSound (some-inj e) (reset-IsSound g h)
  step-IsSound destroy g s positive h e = subst IsSound (some-inj e) (reset-IsSound g h)

  runs-IsSound :
      (events : List Event) (s t : Bool × GameUnit)
      → All IsSocket events
      → IsSound s
      → run kernel events s ≡ some t
      → IsSound t
  unfolding run
  runs-IsSound [] s t positive h e = subst IsSound (some-inj e) h
  runs-IsSound (event ∷ events) (false, g) t positive h e = subst IsSound (some-inj e) h
  runs-IsSound (event ∷ events) (true, g) t positive h e =
      let (s, done, e₁) = bind_inv (step kernel event g) _ _ e in
      runs-IsSound events s t positive.1 (step-IsSound event g s positive.0 h.tidy done) e₁

  -- After any events of a new unit, where the sockets that it is given have positive descriptors, the
  -- descriptors that it has open are the one that it holds, if it holds one, and none once the unit has
  -- been deleted.
  pub run-IsAccounted :
      (c : Option ClientUnit) (events : List Event) (t : Bool × GameUnit)
      → All IsSocket events
      → run kernel events (true, new c) ≡ some t
      → (t.1.link.opened ≡ held t.1.link.netfd) × (t.0 ≡ false → t.1.link.opened ≡ [])
  unfolding new
  run-IsAccounted c events t positive e =
      let h =
        runs-IsSound events (true, new c) t positive
          (alive-IsSound (new c) (record { accounted = refl; fresh = λ _. refl })) e in
      (h.tidy.accounted, h.closed)
