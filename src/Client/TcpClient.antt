-- ===== src/Client/TcpClient.antt =====
-- `CTcpClient` (OrderSyncClient/src/TcpClient.cc, OrderSyncClient/inc/TcpClient.h): the client's
-- connection. A call of the kernel is a step that is given the kernel's answer; a loop over such
-- calls says after each answer whether it goes on.
use order_sync.Base.{
  ℕ, ◌+◌, List, [], ◌∷◌, ◌++◌, Bool, true, false, take, drop, length, ltb, if◌then◌else◌,
}

-- EAGAIN and EINTR are told from EINPROGRESS, and these from the rest.
pub data Errno : Type 0 where
  again in_progress other : Errno

pub data Taken : Type 0 where
  took : ℕ → Taken
  not_taken : Errno → Taken

pub data Received : Type 0 where
  got : List ℕ → Received
  nothing : Errno → Received

-- What `socket` and then `connect` answer; for a descriptor 0 `Connect` does not call `connect`.
pub data Reached : Type 0 where
  reached : Reached
  no_socket unreachable descriptor_zero : Reached

pub record TcpClient : Type 0 where
  pub is_connected : Bool
  -- the bytes that the kernel has taken on this connection, and on those before it, latest first
  pub current : List ℕ
  pub past : List (List ℕ)

-- `Disconneced` and `Close`.
unfoldable pub drop_connection : TcpClient → TcpClient
drop_connection c = record c { is_connected = false }

-- How far `Send` is: it goes on from an offset, or returns its result.
pub data Sending : Type 0 where
  more : ℕ → Sending
  returned : ℕ → Sending

-- `Send` up to its first call of the kernel.
unfoldable pub send_start : List ℕ → TcpClient → Sending
send_start wire c =
    if c.is_connected then (if ltb 0 (length wire) then more 0 else returned 0) else returned 0

-- `Send`'s loop after the kernel's answer to `send (fd, wire + off, size - off)`.
unfoldable pub send_answer : List ℕ → ℕ → Taken → TcpClient → Sending × TcpClient
send_answer wire off (not_taken again) c = (more off, c)
send_answer wire off (not_taken in_progress) c = (returned 0, drop_connection c)
send_answer wire off (not_taken other) c = (returned 0, drop_connection c)
send_answer wire off (took k) c =
    if ltb 0 k
    then (
      if ltb (off + k) (length wire) then more (off + k) else returned (off + k),
      record c { current = c.current ++ take k (drop off wire) },
    )
    else (returned 0, drop_connection c)

-- `Reconnect`, with the value 0 or -1 that it returns, true for 0. `Connect` on a connection that is
-- up returns at once.
unfoldable pub reconnect : Reached → TcpClient → Bool × TcpClient
reconnect no_socket c = (false, c)
reconnect unreachable c = if c.is_connected then (true, c) else (false, c)
reconnect descriptor_zero c = (true, c)
reconnect reached c =
    if c.is_connected
    then (true, c)
    else (true, record c { is_connected = true; past = c.current ∷ c.past; current = [] })

-- `Recv`; the result is 0 with no call of the kernel if there is no connection.
unfoldable pub recv : Received → TcpClient → Received
recv answer c = if c.is_connected then answer else got []

-- `check` of at most 4 bytes: whether it returns 0.
unfoldable pub is_closed : Received → TcpClient → Bool
unfolding recv
is_closed answer c = elim (recv answer c) [
  | got [] ↦ true
  | got (b ∷ bs) ↦ false
  | nothing again ↦ false
  | nothing in_progress ↦ false
  | nothing other ↦ true
]
