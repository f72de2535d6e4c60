-- ===== src/Server/Net.antt =====
-- `CNet` (OrderSyncServer/src/core/net.cpp): sockets that listen and sockets that connect. What the
-- system calls answer is a parameter; the descriptors that the process has open are a list. The
-- options set on a socket, and the addresses handed to the kernel, are left out.
pub mod Bind
use order_sync.Base.{
  ℕ, List, [], ◌∷◌, ◌&&◌, Option, none, some, Bool, true, false, not, ◌==◌, if◌then◌else◌,
}

-- What `socket`, `bind` and `listen` answer, and `inet_pton` of a text.
pub record Answers : Type 0 where
  pub socket : Option ℕ
  pub bind : Bool
  pub listen : Bool
  pub address : List ℕ → Bool

unfoldable pub close : ℕ → List ℕ → List ℕ
close fd [] = []
close fd (x ∷ fds) = if x == fd then fds else x ∷ close fd fds

has_colon : List ℕ → Bool
has_colon [] = false
has_colon (c ∷ cs) = if c == 0x3a then true else has_colon cs

until_colon : List ℕ → List ℕ
until_colon [] = []
until_colon (c ∷ cs) = if c == 0x3a then [] else c ∷ until_colon cs

-- The address without a port behind it.
host : List ℕ → List ℕ
unfolding has_colon until_colon
host addr = if has_colon addr then until_colon addr else addr

-- `strcmp (addr, "*") == 0`.
is_any : List ℕ → Bool
is_any (c ∷ []) = c == 0x2a
is_any _ = false

is_invalid : Answers → List ℕ → Bool
unfolding is_any host
is_invalid a addr = not (is_any (host addr)) && not (a.address (host addr))

-- After the socket is there: `bind`, then `listen`; on an error the socket is closed.
listening : Answers → Option ℕ → List ℕ → Option ℕ × List ℕ
listening a none fds = (none, fds)
listening a (some fd) fds =
    if not a.bind
    then (none, close fd (fd ∷ fds))
    else if not a.listen
    then (none, close fd (fd ∷ fds))
    else (some fd, fd ∷ fds)

-- The socket is bound only; on an error it is left open.
bound : Answers → Option ℕ → List ℕ → Option ℕ × List ℕ
bound a none fds = (none, fds)
bound a (some fd) fds = if not a.bind then (none, fd ∷ fds) else (some fd, fd ∷ fds)

-- The descriptor, or nothing for -1.
unfoldable pub tcp_bind : Answers → List ℕ → List ℕ → Option ℕ × List ℕ
unfolding listening is_invalid
tcp_bind a addr fds = if is_invalid a addr then (none, fds) else listening a a.socket fds

unfoldable pub udp_bind : Answers → List ℕ → List ℕ → Option ℕ × List ℕ
unfolding bound is_invalid
udp_bind a addr fds = if is_invalid a addr then (none, fds) else bound a a.socket fds

unfoldable pub unix_bind : Answers → List ℕ → Option ℕ × List ℕ
unfolding listening
unix_bind a fds = listening a a.socket fds

unfoldable pub init_udp_unix : Answers → List ℕ → Option ℕ × List ℕ
unfolding bound
init_udp_unix a fds = bound a a.socket fds

-- What `connect` answers on a socket that does not block: 0, or -1 with EINPROGRESS or another error.
pub data Connect : Type 0 where
  at_once in_progress failed : Connect

pub data Poll : Type 0 where
  ready timed_out broken : Poll

-- What a connection meets; `error` is the SO_ERROR that `getsockopt` gives, or nothing if it fails.
pub record Dial : Type 0 where
  pub socket : Option ℕ
  pub connect : Connect
  pub poll : Poll
  pub error : Option ℕ

-- The results 0, -1 and SOCKET_CREATE_FAILED. With -1 stands whether `errno` is EINPROGRESS then.
pub data Dialed : Type 0 where
  connected no_socket : Dialed
  not_connected : Bool → Dialed

after_error : Option ℕ → Dialed
after_error none = not_connected false
after_error (some e) = if e == 0 then connected else not_connected true

after_poll : Poll → Option ℕ → Dialed
unfolding after_error
after_poll ready error = after_error error
after_poll timed_out error = not_connected true
after_poll broken error = not_connected false

after_connect : Connect → Poll → Option ℕ → Dialed
unfolding after_poll
after_connect at_once poll error = connected
after_connect failed poll error = not_connected false
after_connect in_progress poll error = after_poll poll error

-- The result, `*netfd`, and the descriptors.
unfoldable pub dialed_on : Dial → Option ℕ → List ℕ → Dialed × Option ℕ × List ℕ
unfolding after_connect
dialed_on d none fds = (no_socket, none, fds)
dialed_on d (some fd) fds = (after_connect d.connect d.poll d.error, some fd, fd ∷ fds)

unfoldable pub tcp_connect : Dial → List ℕ → Dialed × Option ℕ × List ℕ
unfolding dialed_on
tcp_connect d fds = dialed_on d d.socket fds
