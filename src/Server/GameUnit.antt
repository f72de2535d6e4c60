-- ===== src/Server/GameUnit.antt =====
-- `CGameUnit` (OrderSyncServer/src/proxy/game_unit.cpp): the connection of one client's decoder to a
-- game server, whose packets go to the client as they are. `complete` of the decoder deletes the client
-- and this unit: a handler that calls it returns false. `none` is a fault: an access outside an
-- object, or a read of a variable that was never set.
pub mod Passing
pub mod Forwarding
pub mod Tidiness
pub mod Delivering
pub mod Oversized
pub mod Descriptors
use order_sync.Base.{
  ℕ, zero, suc, ◌+◌, List, [], ◌∷◌, ◌++◌, Option, none, some, Bool, true, false, length, drop, ltb,
  ◌==◌, if◌then◌else◌, ◌>>=◌, load,
}
use order_sync.Server.Net.{Dial}
use order_sync.Server.Packet
use order_sync.Server.Packet.{Packet}
use order_sync.Server.ClientUnit.{
  ClientUnit, ConnState, idle, fatal_error, disconnect, data_recving, recv_done, retry, other,
  SendOutcome, RecvOutcome, received, failed, send, length_field, blank,
}
use order_sync.Server.Link
use order_sync.Server.Link.{Link}

pub record GameUnit : Type 0 where
  pub link : Link
  -- `_decoderunit->get_web_unit ()`
  pub client : Option ClientUnit

-- "0.0.0.0"
abbrev pub no_addr : List ℕ
no_addr = 0x30 ∷ 0x2e ∷ 0x30 ∷ 0x2e ∷ 0x30 ∷ 0x2e ∷ 0x30 ∷ []

unfoldable pub reset_link : Link → Link
reset_link l = record (Link.reset_helper l) { tid = 0; addr = no_addr; port = 0 }

unfoldable pub reset_helper : GameUnit → GameUnit
unfolding reset_link
reset_helper g = record g { link = reset_link g.link }

unfoldable pub new : Option ClientUnit → GameUnit
new c = record {
  link = record {
    stage = idle;
    netfd = some 0;
    send_error_times = 0;
    r = [];
    w = [];
    input_enabled = false;
    output_enabled = false;
    attached = false;
    has_timer = false;
    timed = false;
    addr = no_addr;
    port = 0;
    tid = 0;
    sent = [];
    opened = [];
  };
  client = c;
}

unfoldable pub connect : Dial → Bool → GameUnit → Bool × GameUnit
connect d takes g = let (ok, l) = Link.connect d takes g.link in (ok, record g { link = l })

unfoldable pub send_to_cgi : SendOutcome → GameUnit → Option ℕ × GameUnit
unfolding reset_link
send_to_cgi answer g =
    let (n, l) = Link.send_to_cgi reset_link answer g.link in (n, record g { link = l })

unfoldable pub send_to_logic : Dial → Bool → SendOutcome → GameUnit → Option ℕ × GameUnit
unfolding reset_link
send_to_logic d takes answer g =
    let (n, l) = Link.send_to_logic reset_link true d takes answer g.link in
    (n, record g { link = l })

unfoldable pub append_pkg : List ℕ → GameUnit → GameUnit
append_pkg bytes g = record g { link = Link.append_pkg bytes g.link }

-- The timer list is not set before `send_to_logic`.
unfoldable pub update_timer : GameUnit → Option GameUnit
update_timer g =
    if g.link.has_timer then some (record g { link = record g.link { timed = true } }) else none

abbrev pub max_content : ℕ
max_content = 10240

abbrev pub logout_success : ℕ
logout_success = 0x2013

abbrev pub change_gameserver : ℕ
change_gameserver = 0x7213

unfoldable pub is_fatal : ConnState → Bool
is_fatal fatal_error = true
is_fatal _ = false

is_sent : Option ℕ → Bool
is_sent none = false
is_sent (some n) = true

module _ (kernel : ℕ → ℕ → SendOutcome) where
  -- A packet goes to the client; false for the result -1.
  unfoldable pub forward : Packet → Option ClientUnit → Option (Bool × Option ClientUnit)
  unfolding is_fatal is_sent
  forward p none = some (true, none)
  forward p (some c) = if is_fatal c.stage then some (false, some c) else do
    bytes ← load p.buf 0 p.size
    let (n, v) = send kernel (record c { w = c.w ++ bytes })
    some (is_sent n, some v)

  -- The new server's address, which is encrypted.
  change : Packet → Link → Option Link
  unfolding reset_link
  change p l = do
    d ← Packet.decrypt_buffer p
    uid ← Packet.read_int d.1
    ip ← Packet.read_string uid.1
    port ← Packet.read_int ip.1
    some (record (reset_link l) { addr = ip.0; port = port.0 })

  -- The commands that the unit obeys itself; true if the loop ends there.
  after_cmd : ℕ → Packet → Link → Option (Bool × Link)
  unfolding change reset_link
  after_cmd cmd p l =
      if cmd == logout_success
      then some (true, reset_link l)
      else if cmd == change_gameserver
      then (change p l >>= λ v. some (true, v))
      else some (false, l)

  -- After `forward`: the result, whether the loop ends, and the unit.
  passed : ℕ → ℕ → Packet → GameUnit → Bool × Option ClientUnit → Option (Bool × Bool × GameUnit)
  unfolding after_cmd
  passed n cmd p g (false, c) = some (false, true, record g { client = c })
  passed n cmd p g (true, c) = do
    s ← after_cmd cmd p (record g.link { r = drop n g.link.r })
    some (true, s.0, record { link = s.1; client = c })

  -- One packet of `n` bytes.
  unfoldable pub pass : ℕ → GameUnit → Option (Bool × Bool × GameUnit)
  unfolding forward passed
  pass n g = do
    p ← Packet.copy g.link.r n blank
    cmd ← Packet.get_cmd_type p.1
    f ← forward p.1 g.client
    passed n cmd p.1 g f

  -- The loop over the packets in `_r`; false for the result -1. Each takes two bytes or more.
  unfoldable pub process_pkg : ℕ → GameUnit → Option (Bool × GameUnit)
  unfolding pass
  process_pkg zero g = some (true, g)
  process_pkg (suc fuel) g =
      let n = 2 + length_field g.link.r in
      if ltb (length g.link.r) 9
      then some (true, g)
      else if ltb max_content (length_field g.link.r)
      then some (false, g)
      else if ltb (length g.link.r) n
      then some (true, g)
      else do s ← pass n g; if s.1 then some (s.0, s.2) else process_pkg fuel s.2

  stop_at : ConnState → GameUnit → Option (Bool × GameUnit)
  stop_at stage g = some (false, record g { link = record g.link { stage = stage } })

  after_process : Bool × GameUnit → Bool × GameUnit
  after_process (false, g) = (false, g)
  after_process (true, g) = (true, record g { link = record g.link { stage = recv_done } })

  -- False for the result -1.
  unfoldable pub recv_from_cgi : RecvOutcome → GameUnit → Option (Bool × GameUnit)
  unfolding process_pkg stop_at after_process
  recv_from_cgi (failed retry) g =
      some (true, record g { link = record g.link { stage = data_recving } })
  recv_from_cgi (failed other) g = stop_at fatal_error g
  recv_from_cgi (received []) g = stop_at disconnect g
  recv_from_cgi (received (b ∷ bs)) g =
      let v = record g { link = record g.link { r = g.link.r ++ (b ∷ bs) } } in
      do s ← process_pkg (length v.link.r) v; some (after_process s)

  -- A failure ends the unit, and its client.
  keep : Bool × GameUnit → Bool × GameUnit
  unfolding reset_helper
  keep (true, g) = (true, g)
  keep (false, g) = (false, reset_helper g)

  unfoldable pub input_notify : RecvOutcome → GameUnit → Option (Bool × GameUnit)
  unfolding recv_from_cgi keep update_timer
  input_notify outcome g = do v ← update_timer g; s ← recv_from_cgi outcome v; some (keep s)

  unfoldable pub output_notify : SendOutcome → GameUnit → Option (Bool × GameUnit)
  unfolding keep update_timer send_to_cgi is_sent
  output_notify answer g = do
    v ← update_timer g
    let (n, u) = send_to_cgi answer v
    some (keep (is_sent n, u))

  unfoldable pub hangup_notify : GameUnit → Option (Bool × GameUnit)
  unfolding process_pkg reset_helper update_timer
  hangup_notify g = do
    v ← update_timer g
    s ← process_pkg (length v.link.r) v
    some (false, reset_helper s.1)

  unfoldable pub timer_notify : GameUnit → Bool × GameUnit
  unfolding reset_helper
  timer_notify g = (false, reset_helper g)
