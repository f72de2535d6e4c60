-- ===== src/Server/Link.antt =====
-- What `CHelperUnit` (OrderSyncServer/src/proxy/helper_unit.cpp) and `CGameUnit`
-- (OrderSyncServer/src/proxy/game_unit.cpp) share word for word: a connection that the server opens to
-- another server. The answers of the system calls are arguments; `timed` is whether the timer object is
-- on its list. The error counter is a `short`, kept as its bit pattern.
pub mod Held
pub mod Tidy
use order_sync.Base.{
  ℕ, zero, suc, ◌+◌, List, [], ◌++◌, Option, none, some, Bool, true, false, ◌&&◌, length, take,
  drop, ltb, leb, ◌==◌, u16, if◌then◌else◌,
}
use order_sync.Server.Net.{Dial, Dialed, connected, no_socket, not_connected, tcp_connect, close}
use order_sync.Server.ClientUnit.Defs.{
  ConnState, idle, connecting, Errno, retry, other, SendOutcome, accepted, refused, fatal_error,
  send_done, data_sending,
}

pub record Link : Type 0 where
  pub stage : ConnState
  -- nothing for a negative number
  pub netfd : Option ℕ
  pub send_error_times : ℕ
  pub r : List ℕ
  pub w : List ℕ
  pub input_enabled : Bool
  pub output_enabled : Bool
  pub attached : Bool
  -- whether `_helperTimer` is set, and whether the timer runs
  pub has_timer : Bool
  pub timed : Bool
  -- the server's address, and `tid`, which the helper does not have
  pub addr : List ℕ
  pub port : ℕ
  pub tid : ℕ
  -- the bytes that the kernel has taken, and the descriptors of this object that are open
  pub sent : List ℕ
  pub opened : List ℕ

-- `netfd > 0`, and then `close`.
close_fd : Option ℕ → List ℕ → List ℕ
close_fd none fds = fds
close_fd (some fd) fds = if fd == 0 then fds else close fd fds

-- `reset_helper` of the helper.
unfoldable pub reset_helper : Link → Link
unfolding close_fd
reset_helper l = record l {
  w = [];
  r = [];
  input_enabled = false;
  output_enabled = false;
  attached = false;
  opened = close_fd l.netfd l.opened;
  netfd = none;
  stage = idle;
}

-- `CNet::tcp_connect (&netfd, ...)`.
dial : Dial → Link → Dialed × Link
dial d l =
    let (result, fd, fds) = tcp_connect d l.opened in
    (result, record l { netfd = fd; opened = fds })

-- `AttachPoller`, with its answer; the result is 0 or -1, true for 0.
attach_poller : Bool → Link → Bool × Link
attach_poller takes l = if takes then (true, record l { attached = true }) else (false, l)

-- `connect` of a stage: a new socket in the state CONN_IDLE, and otherwise where there is none.
needs_socket : ConnState → Option ℕ → Bool
needs_socket idle fd = true
needs_socket _ none = true
needs_socket _ (some fd) = false

after_dial : Bool → Dialed × Link → Bool × Link
unfolding attach_poller
after_dial takes (connected, l) = attach_poller takes (record l { stage = ConnState.connected })
after_dial takes (_, l) = (false, l)

unfoldable pub connect : Dial → Bool → Link → Bool × Link
unfolding needs_socket dial after_dial
connect d takes l =
    after_dial takes (if needs_socket l.stage l.netfd then dial d l else (connected, l))

-- `reConnect`: a connection that is not there yet is waited for.
after_redial : Bool → Dialed × Link → Bool × Link
unfolding attach_poller
after_redial takes (connected, l) = attach_poller takes (record l { stage = ConnState.connected })
after_redial takes (no_socket, l) = (false, l)
after_redial takes (not_connected in_progress, l) =
    if in_progress then attach_poller takes (record l { stage = connecting }) else (false, l)

unfoldable pub re_connect : Dial → Bool → Link → Bool × Link
unfolding dial after_redial
re_connect d takes l = after_redial takes (dial d l)

-- `_send_error_times >= 50` of a `short`.
too_many : ℕ → Bool
too_many times = leb 50 times && ltb times 32768

module _ (reset : Link → Link) where
  -- `reset_helper`, and the state of an error.
  fail : Link → Link
  fail l = record (reset l) { stage = fatal_error }

  -- What `send_to_cgi` makes of the kernel's answer; nothing for the result -1.
  send_outcome : SendOutcome → Link → Option ℕ × Link
  unfolding too_many fail
  send_outcome (refused retry) l =
      let v = record l { send_error_times = u16 (l.send_error_times + 1) } in
      if too_many v.send_error_times
      then (none, fail v)
      else (some 6, record v { output_enabled = true })
  send_outcome (refused other) l = (none, fail l)
  send_outcome (accepted n) l =
      let v = record l { w = drop n l.w; sent = l.sent ++ take n l.w; send_error_times = 0 } in
      if n == length l.w
      then (some n, record v { output_enabled = false; stage = send_done })
      else if ltb n (length l.w)
      then (some n, record v { output_enabled = true; stage = data_sending })
      else (some n, record l { input_enabled = false; output_enabled = false; stage = fatal_error })

  unfoldable pub send_to_cgi : SendOutcome → Link → Option ℕ × Link
  unfolding send_outcome
  send_to_cgi answer l = if length l.w == 0 then (some 0, l) else send_outcome answer l

  -- `send_to_logic`, after `_helperTimer` is set or without.
  logic_connected : Bool → SendOutcome → Bool × Link → Option ℕ × Link
  unfolding send_to_cgi
  logic_connected timer answer (false, l) = (none, reset l)
  logic_connected timer answer (true, l) =
      send_to_cgi answer (if timer then record l { timed = true } else l)

  unfoldable pub send_to_logic : Bool → Dial → Bool → SendOutcome → Link → Option ℕ × Link
  unfolding connect logic_connected
  send_to_logic timer d takes answer l = logic_connected timer answer (
      connect d takes
        (record l { has_timer = (if timer then true else l.has_timer); input_enabled = true }))

abbrev pub append_pkg : List ℕ → Link → Link
append_pkg bytes l = record l { w = l.w ++ bytes }
