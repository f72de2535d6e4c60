-- ===== src/Server/ClientUnit/Events.antt =====
-- `CClientUnit::proc_pkg`, `recv`, `InputNotify`, `OutputNotify` (client_unit.cpp) and
-- `CDecoderUnit::web_input`, `web_output` (decode_unit.cpp): a connection's events.
pub mod Listening
use Prim.Native.Char.{code}
use Prim.Native.String.{String}
use order_sync.Base.{
  ℕ, List, [], ◌∷◌, ◌++◌, Option, none, some, Bool, true, false, ◌&&◌, length, get_or, ◌==◌,
  if◌then◌else◌, ◌>>=◌,
}
use order_sync.Server.ClientUnit.Requests.{Parsed}
use order_sync.Server.ClientUnit.Defs.{
  ConnState, idle, fatal_error, data_error, disconnect, data_sending, data_recving, send_done,
  recv_done, append_sending, append_done, DecodeStatus, fatal, data_err, wait_head, wait_content,
  done, disconnect_by_user, SendOutcome, RecvOutcome, received, failed, retry, other, conn_other,
  ClientUnit, send,
}
use order_sync.Server.ClientUnit.Requests.{drain}

-- The code points of a text: its bytes, if it is ASCII.
abbrev codes : String → List ℕ
codes String.[] = []
codes (String.◌∷◌ c s) = code c ∷ codes s

same_bytes : List ℕ → List ℕ → Bool
same_bytes [] [] = true
same_bytes (x ∷ xs) (y ∷ ys) = x == y && same_bytes xs ys
same_bytes _ _ = false

-- The terminator of the text is compared too.
policy_request : List ℕ
policy_request = codes "<policy-file-request/>" ++ (0 ∷ [])

policy_response : List ℕ
policy_response =
    codes
      "<cross-domain-policy><allow-access-from domain=\"*\" to-ports=\"*\" /></cross-domain-policy>"

module _ (order_id : List ℕ → Parsed) (kernel : ℕ → ℕ → SendOutcome) where
  -- A request for the cross-domain policy: it is answered, and the connection ends.
  answer_policy : List ℕ → ClientUnit → ClientUnit
  unfolding same_bytes policy_request policy_response
  answer_policy bytes u =
      let v = record u { conn_type = conn_other } in
      if same_bytes bytes policy_request
      then record (send kernel (record v { w = v.w ++ policy_response })).1 {
        decode_status = fatal;
      }
      else record v { decode_status = fatal }

  unfoldable pub proc_pkg : RecvOutcome → ClientUnit → Option ClientUnit
  unfolding answer_policy
  proc_pkg (failed other) u = some (record u { decode_status = fatal })
  proc_pkg (failed retry) u = some u
  proc_pkg (received []) u = some (record u { decode_status = disconnect_by_user })
  proc_pkg (received (b ∷ bs)) u =
      let bytes = b ∷ bs in
      let v = record u { r = u.r ++ bytes } in
      if length bytes == 23 && b == 0x3c && get_or bytes 1 0 == 0x70
      then some (answer_policy bytes u)
      else do d ← drain order_id kernel (length v.r) v; some (record d.1 { decode_status = d.0 })

  stage_of : DecodeStatus → ClientUnit → ClientUnit
  stage_of data_err u = record u { input_enabled = false; stage = data_error }
  stage_of wait_head u = record u { stage = data_recving }
  stage_of wait_content u = record u { stage = data_recving }
  stage_of done u = record u { stage = recv_done }
  stage_of disconnect_by_user u = record u { input_enabled = false; stage = disconnect }
  stage_of _ u = record u { input_enabled = false; stage = fatal_error }

  unfoldable pub recv : RecvOutcome → ClientUnit → Option ClientUnit
  unfolding stage_of
  recv outcome u = do v ← proc_pkg outcome u; some (stage_of v.decode_status v)

  -- Whether `web_input` keeps the connection; otherwise the listener deletes it.
  web_input : ConnState → Bool
  web_input data_recving = true
  web_input idle = true
  web_input recv_done = true
  web_input _ = false

  unfoldable pub input_notify : RecvOutcome → ClientUnit → Option (Bool × ClientUnit)
  unfolding web_input
  input_notify outcome u = do v ← recv outcome u; some (web_input v.stage, v)

  is_sending : ConnState → Bool
  is_sending data_sending = true
  is_sending append_sending = true
  is_sending append_done = true
  is_sending _ = false

  is_send_done : ConnState → Bool
  is_send_done send_done = true
  is_send_done _ = false

  resend : Option ℕ × ClientUnit → Bool × ClientUnit
  unfolding is_sending is_send_done
  resend (none, v) = (false, v)
  resend (some n, v) = (if is_send_done v.stage then true else is_sending v.stage, v)

  -- `web_output`, after the `send` of `OutputNotify`: what is left is sent once more at once.
  unfoldable pub web_output : ClientUnit → Bool × ClientUnit
  unfolding is_sending is_send_done resend
  web_output u =
      if is_send_done u.stage
      then (true, u)
      else if is_sending u.stage
      then resend (send kernel u)
      else (false, u)

  unfoldable pub output_notify : ClientUnit → Bool × ClientUnit
  unfolding web_output
  output_notify u = web_output (send kernel u).1
