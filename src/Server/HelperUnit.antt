-- ===== src/Server/HelperUnit.antt =====
-- `CHelperUnit` (OrderSyncServer/src/proxy/helper_unit.cpp): the connection to a helper server, which
-- tells of payments and of the length of its queues. The JSON library is a parameter: `parse` gives the
-- field "result" of a text, or nothing if the text is not read. The client of a payment is never found:
-- `_get_client_by_id` has its body commented out. `none` is a fault.
pub mod Endless
pub mod Leak
use order_sync.Base.{
  ℕ, zero, suc, ◌+◌, List, [], ◌∷◌, ◌++◌, Option, none, some, Bool, true, false, ◌||◌, length, drop,
  ltb, int_gt, ◌==◌, if◌then◌else◌, ◌>>=◌,
}
use order_sync.Server.Net.{Dial}
use order_sync.Server.Packet
use order_sync.Server.Packet.{Packet}
use order_sync.Server.Packet.Fields.{read_byte, write_string}
use order_sync.Server.ClientUnit.{
  ConnState, fatal_error, disconnect, data_recving, recv_done, retry, other, SendOutcome,
  RecvOutcome, received, failed, length_field, blank,
}
use order_sync.Server.Link
use order_sync.Server.Link.{Link}

-- `gSvrStat` and `gSvrSwitch`.
pub record Stats : Type 0 where
  pub w_qlen : ℕ
  pub n_qlen : ℕ
  pub w_ctime : ℕ
  pub n_ctime : ℕ
  pub w_is_busyed : Bool
  pub n_is_busyed : Bool

pub record HelperUnit : Type 0 where
  pub link : Link
  pub stats : Stats

abbrev pub max_content : ℕ
max_content = 10240

abbrev pub max_qlen : ℕ
max_qlen = 1024

abbrev pub inter_cmd_res : ℕ
inter_cmd_res = 0x9001

abbrev pub waiter_stat_res : ℕ
waiter_stat_res = 0x9002

abbrev pub notify_stat_res : ℕ
notify_stat_res = 0x9003

abbrev pub server_cmd_rep : ℕ
server_cmd_rep = 0x1001

unfoldable pub send_to_cgi : SendOutcome → HelperUnit → Option ℕ × HelperUnit
send_to_cgi answer h =
    let (n, l) = Link.send_to_cgi Link.reset_helper answer h.link in (n, record h { link = l })

-- `update_timer`, where the timer list may not be set.
unfoldable pub update_timer : HelperUnit → HelperUnit
update_timer h = record h { link = record h.link { timed = h.link.has_timer } }

unfoldable pub reset_helper : HelperUnit → HelperUnit
reset_helper h = record h { link = Link.reset_helper h.link }

-- `_worker_stat_chk`: its command, the length of a queue and the time.
set_stats : ℕ → ℕ → ℕ → Stats → Stats
set_stats cmd len ctime s =
    if cmd == waiter_stat_res
    then record s { w_is_busyed = int_gt len max_qlen; w_qlen = len; w_ctime = ctime }
    else if cmd == notify_stat_res
    then record s { n_is_busyed = int_gt len max_qlen; n_qlen = len; n_ctime = ctime }
    else s

unfoldable pub worker_stat_chk : Packet → HelperUnit → Option HelperUnit
unfolding set_stats
worker_stat_chk p h = do
  cmd ← Packet.get_cmd_type p
  len ← Packet.read_int p
  ctime ← Packet.read_int len.1
  some (record h { stats = set_stats cmd len.0 ctime.0 h.stats })

module _ (parse : List ℕ → Option (List ℕ)) where
  -- The reply to a payment, as the fields of its body, with a first field 1 for a text that is not read.
  pay_reply : Option (List ℕ) → ℕ × List ℕ
  pay_reply none = (1, [])
  pay_reply (some result) = (0, result)

  -- `_pay_res`: a reply is made, and goes nowhere.
  unfoldable pub pay_res : Packet → HelperUnit → Option HelperUnit
  unfolding pay_reply
  pay_res p h = do
    code ← read_byte p
    json ← Packet.read_string code.1
    out ← Packet.begin server_cmd_rep blank
    first ← Packet.write_int (pay_reply (parse json.0)).0 out
    second ← write_string (pay_reply (parse json.0)).1 first.1
    whole ← Packet.end second.1
    coded ← Packet.encrypt_buffer whole
    some h

  -- The `switch` on the command: the packet is skipped only if the command is known.
  obey : ℕ → ℕ → Packet → HelperUnit → Option HelperUnit
  unfolding pay_res worker_stat_chk
  obey cmd n p h =
      if cmd == inter_cmd_res
      then (pay_res p h >>= λ v. some (record v { link = record v.link { r = drop n v.link.r } }))
      else if (cmd == waiter_stat_res) || (cmd == notify_stat_res)
      then (worker_stat_chk p h >>= λ v.
          some (record v { link = record v.link { r = drop n v.link.r } }))
      else some h

  -- One packet of `n` bytes.
  unfoldable pub take_packet : ℕ → HelperUnit → Option HelperUnit
  unfolding obey
  take_packet n h = do
    p ← Packet.copy h.link.r n blank
    cmd ← Packet.get_cmd_type p.1
    d ← Packet.decrypt_buffer p.1
    obey cmd n d.1 h

  -- The loop over the packets in `_r`: how it returns, or nothing if it has not ended in so many turns.
  unfoldable pub process_pkg : ℕ → HelperUnit → Option (Option Bool × HelperUnit)
  unfolding take_packet
  process_pkg zero h = some (none, h)
  process_pkg (suc fuel) h =
      let n = 2 + length_field h.link.r in
      if ltb (length h.link.r) 9
      then some (some true, h)
      else if ltb max_content (length_field h.link.r)
      then some (some false, h)
      else if ltb (length h.link.r) n
      then some (some true, h)
      else do v ← take_packet n h; process_pkg fuel v

  at_stage : ConnState → HelperUnit → HelperUnit
  at_stage stage h = record h { link = record h.link { stage = stage } }

  after_process : Option Bool × HelperUnit → Option Bool × HelperUnit
  unfolding at_stage
  after_process (some true, h) = (some true, at_stage recv_done h)
  after_process (ended, h) = (ended, h)

  -- Where the server has closed, `reConnect` is called, and what it returns is not looked at.
  unfoldable pub recv_from_cgi :
      ℕ → RecvOutcome → Dial → Bool → HelperUnit → Option (Option Bool × HelperUnit)
  unfolding process_pkg at_stage after_process
  recv_from_cgi fuel (failed retry) d takes h = some (some true, at_stage data_recving h)
  recv_from_cgi fuel (failed other) d takes h = some (some false, at_stage fatal_error h)
  recv_from_cgi fuel (received []) d takes h =
      let v = at_stage disconnect h in
      some (some false, record v { link = (Link.re_connect d takes v.link).1 })
  recv_from_cgi fuel (received (b ∷ bs)) d takes h = do
    s ← process_pkg fuel (record h { link = record h.link { r = h.link.r ++ (b ∷ bs) } })
    some (after_process s)

  -- POLLER_SUCC for true, POLLER_COMPLETE for false.
  settle : Option Bool × HelperUnit → Option Bool × HelperUnit
  unfolding reset_helper
  settle (some false, h) = (some false, reset_helper h)
  settle (ended, h) = (ended, h)

  unfoldable pub input_notify :
      ℕ → RecvOutcome → Dial → Bool → HelperUnit → Option (Option Bool × HelperUnit)
  unfolding recv_from_cgi settle update_timer
  input_notify fuel outcome d takes h = do
    s ← recv_from_cgi fuel outcome d takes (update_timer h)
    some (settle s)

unfoldable pub output_notify : SendOutcome → HelperUnit → HelperUnit
unfolding send_to_cgi update_timer
output_notify answer h = (send_to_cgi answer (update_timer h)).1

unfoldable pub hangup_notify :
    (List ℕ → Option (List ℕ)) → ℕ → HelperUnit → Option (Option Bool × HelperUnit)
unfolding process_pkg reset_helper update_timer
hangup_notify parse fuel h = do
  s ← process_pkg parse fuel (update_timer h)
  some (s.0, reset_helper s.1)

unfoldable pub timer_notify : HelperUnit → HelperUnit
unfolding reset_helper
timer_notify h = reset_helper h
