-- ===== src/Server/Link/Tidy.antt =====
-- Which descriptors a connection to another server leaves open.
use order_sync.Base.{
  ℕ, ◌+◌, ◌<◌, ◌≡◌, inl, inr, refl, sym, ap, ◌∙◌, List, [], ◌∷◌, Option, none, some, Bool, true,
  false, arith, ◌==◌, ltb, length, if-either, Option-cases, u16,
}
use order_sync.Server.Net.{
  Dial, Dialed, connected, no_socket, not_connected, tcp_connect, dialed_on, close,
}
use order_sync.Server.ClientUnit.{ConnState, idle, SendOutcome, accepted, refused, retry, other}
use order_sync.Server.Link.{
  Link, close_fd, reset_helper, dial, attach_poller, needs_socket, after_dial, connect, too_many,
  fail, re_connect, after_redial, send_outcome, send_to_cgi, logic_connected, send_to_logic,
}
use order_sync.Server.Link.Held.{held, IsAccounted, IsTidy, IsClosed, closed-IsTidy, same-IsTidy}

-- A new socket where there was none.
dial-IsAccounted :
    (d : Dial) (l : Link)
    → ((fd : ℕ) → d.socket ≡ some fd → 0 < fd)
    → l.opened ≡ []
    → IsAccounted (dial d l).1
unfolding dial tcp_connect
dial-IsAccounted d l positive empty = elim (Option-cases d.socket) [
  | inl failed ↦ ground (arith, failed, empty)
  | inr (fd, given) ↦ ground (arith, given, empty, positive fd given)
]

nothing_held :
    (stage : ConnState) (fd : Option ℕ)
    → (stage ≡ idle → held fd ≡ [])
    → needs_socket stage fd ≡ true
    → held fd ≡ []
unfolding needs_socket
nothing_held stage none fresh e = refl
nothing_held idle (some fd) fresh e = fresh refl
nothing_held stage (some fd) fresh e = ground (arith, e)

-- What a try to connect leaves: its descriptors are accounted for, and it is tidy if all went well.
record IsTried (r : Bool × Link) : Type 0 where
  accounted : IsAccounted r.1
  tidy : r.0 ≡ true → IsTidy r.1

attach_poller-IsTried : (takes : Bool) (l : Link) → IsTidy l → IsTried (attach_poller takes l)
unfolding attach_poller
attach_poller-IsTried true l h = record {
  accounted = h.accounted;
  tidy = λ _. same-IsTidy l (record l { attached = true }) refl refl (λ e. e) h;
}
attach_poller-IsTried false l h = record { accounted = h.accounted; tidy = λ _. h }

after_dial-IsTried :
    (takes : Bool) (s : Dialed × Link) → IsAccounted s.1 → IsTried (after_dial takes s)
unfolding after_dial
after_dial-IsTried takes (connected, l) h =
    attach_poller-IsTried takes (record l { stage = ConnState.connected })
      (record { accounted = h; fresh = λ e. absurd (ground (arith, e)) })
after_dial-IsTried takes (no_socket, l) h = record {
  accounted = h;
  tidy = λ e. absurd (ground (arith, e));
}
after_dial-IsTried takes (not_connected e, l) h = record {
  accounted = h;
  tidy = λ e. absurd (ground (arith, e));
}

connect-IsTried :
    (d : Dial) (takes : Bool) (l : Link)
    → ((fd : ℕ) → d.socket ≡ some fd → 0 < fd)
    → IsTidy l
    → IsTried (connect d takes l)
unfolding connect
connect-IsTried d takes l positive h =
    if-either (λ (s : Dialed × Link). IsTried (after_dial takes s)) (needs_socket l.stage l.netfd) _
      _
      (λ e.
        after_dial-IsTried takes (dial d l)
          (dial-IsAccounted d l positive (h.accounted ∙ nothing_held l.stage l.netfd h.fresh e)))
      λ _. after_dial-IsTried takes (connected, l) h.accounted

module _ (reset : Link → Link) (closes : (l : Link) → IsAccounted l → IsClosed (reset l)) where
  fail-IsTidy : (l : Link) → IsTidy l → IsTidy (fail reset l)
  unfolding fail
  fail-IsTidy l h =
      let shut = closes l h.accounted in
      record {
        accounted = shut.nothing_open ∙ ap held (sym shut.no_fd);
        fresh = λ _. ap held shut.no_fd;
      }

  send_outcome-IsTidy :
      (answer : SendOutcome) (l : Link) → IsTidy l → IsTidy (send_outcome reset answer l).1
  unfolding send_outcome
  send_outcome-IsTidy (refused retry) l h =
      let v : Link = record l { send_error_times = u16 (l.send_error_times + 1) } in
      let counted : IsTidy v = same-IsTidy l v refl refl (λ e. e) h in
      if-either (λ (r : Option ℕ × Link). IsTidy r.1) (too_many v.send_error_times) _ _
        (λ _. fail-IsTidy v counted)
        λ _. same-IsTidy v (record v { output_enabled = true }) refl refl (λ e. e) counted
  send_outcome-IsTidy (refused other) l h = fail-IsTidy l h
  send_outcome-IsTidy (accepted n) l h =
      if-either (λ (r : Option ℕ × Link). IsTidy r.1) (n == length l.w) _ _
        (λ _. same-IsTidy l _ refl refl (λ e. absurd (ground (arith, e))) h)
        λ _.
          if-either (λ (r : Option ℕ × Link). IsTidy r.1) (ltb n (length l.w)) _ _
            (λ _. same-IsTidy l _ refl refl (λ e. absurd (ground (arith, e))) h)
            λ _. same-IsTidy l _ refl refl (λ e. absurd (ground (arith, e))) h

  pub send_to_cgi-IsTidy :
      (answer : SendOutcome) (l : Link) → IsTidy l → IsTidy (send_to_cgi reset answer l).1
  unfolding send_to_cgi
  send_to_cgi-IsTidy answer l h =
      if-either (λ (r : Option ℕ × Link). IsTidy r.1) (length l.w == 0) _ _ (λ _. h)
        λ _. send_outcome-IsTidy answer l h

  logic_connected-IsTidy :
      (timer : Bool) (answer : SendOutcome) (r : Bool × Link)
      → IsTried r
      → IsTidy (logic_connected reset timer answer r).1
  unfolding logic_connected
  logic_connected-IsTidy timer answer (false, l) h = closed-IsTidy (reset l) (closes l h.accounted)
  logic_connected-IsTidy timer answer (true, l) h = send_to_cgi-IsTidy answer _ (
      if-either IsTidy timer _ _
        (λ _. same-IsTidy l (record l { timed = true }) refl refl (λ e. e) (h.tidy refl))
        λ _. h.tidy refl)

  pub send_to_logic-IsTidy :
      (timer : Bool) (d : Dial) (takes : Bool) (answer : SendOutcome) (l : Link)
      → ((fd : ℕ) → d.socket ≡ some fd → 0 < fd)
      → IsTidy l
      → IsTidy (send_to_logic reset timer d takes answer l).1
  unfolding send_to_logic
  send_to_logic-IsTidy timer d takes answer l positive h =
      logic_connected-IsTidy timer answer _
        (connect-IsTried d takes _ positive (same-IsTidy l _ refl refl (λ e. e) h))

close_new : (fd : ℕ) (fds : List ℕ) → 0 < fd → close_fd (some fd) (fd ∷ fds) ≡ fds
unfolding close_fd close
close_new fd fds positive = ground (arith, positive)

closed_after : Link → List ℕ
closed_after l = close_fd l.netfd l.opened

dial-close :
    (d : Dial) (l : Link)
    → ((fd : ℕ) → d.socket ≡ some fd → 0 < fd)
    → closed_after (dial d l).1 ≡ l.opened
unfolding closed_after dial tcp_connect dialed_on close_fd
dial-close d l positive = go d.socket positive
  where
    go :
        (s : Option ℕ)
        → ((fd : ℕ) → s ≡ some fd → 0 < fd)
        → close_fd (dialed_on d s l.opened).1 (dialed_on d s l.opened).2 ≡ l.opened
    go none given = refl
    go (some fd) given = close_new fd l.opened (given fd refl)

-- A connection that is tried again, and then closed, leaves what was open before.
pub redial_same :
    (d : Dial) (takes : Bool) (l : Link)
    → ((fd : ℕ) → d.socket ≡ some fd → 0 < fd)
    → (reset_helper (re_connect d takes l).1).opened ≡ l.opened
unfolding reset_helper re_connect attach_poller after_redial closed_after close_fd
redial_same d takes l positive = redialed (dial d l) ∙ dial-close d l positive
  where
    attached : (b : Bool) (v : Link) → closed_after (attach_poller b v).1 ≡ closed_after v
    attached true v = refl
    attached false v = refl

    redialed : (s : Dialed × Link) → closed_after (after_redial takes s).1 ≡ closed_after s.1
    redialed (connected, v) = attached takes (record v { stage = ConnState.connected })
    redialed (no_socket, v) = refl
    redialed (not_connected true, v) = attached takes (record v { stage = ConnState.connecting })
    redialed (not_connected false, v) = refl
