-- ===== src/Redis.antt =====
-- `redis_helper_t` (OrderSyncServer/src/proxy/redis_helper.cc), which OrderDbSync and the client have
-- as `CRedisHelper` and with the same text: the calls of the redis library behind the queues of orders.
-- The library and the server behind it are an interface, a state and what a command does to it. `none` is a
-- fault: a command without a context, or a text that is read where the reply has none.
pub mod Fifo
use order_sync.Base.{
  ℕ, ◌+◌, List, [], ◌∷◌, ◌++◌, Option, none, some, Bool, true, false, ◌&&◌, length, ◌==◌,
  if◌then◌else◌, ◌>>=◌,
}

pub data Command : Type 0 where
  set rpush : List ℕ → List ℕ → Command
  get lpop rpop : List ℕ → Command
  ping : Command

-- What `redisCommand` returns: NULL, or a reply of one of the library's types.
pub data Reply : Type 0 where
  lost nil : Reply
  array integer : ℕ → Reply
  text status error : List ℕ → Reply

-- A connection's server: its state, the list under a key, and its answer to a command.
pub record Redis : Type 1 where
  pub State : Type 0
  pub list_at : List ℕ → State → List (List ℕ)
  pub command : Command → State → Reply × State

-- `reply->str`.
str_of : Reply → Option (List ℕ)
str_of (text s) = some s
str_of (status s) = some s
str_of (error s) = some s
str_of _ = none

-- `reply ? reply->integer : 1`.
integer_of : Reply → ℕ
integer_of lost = 1
integer_of (integer n) = n
integer_of _ = 0

-- What a `char *` is read as: the bytes before the first NUL.
abbrev pub c_str : List ℕ → List ℕ
c_str [] = []
c_str (b ∷ bs) = let rest = c_str bs in if b == 0 then [] else b ∷ rest

-- `strcmp ("PONG", reply->str) == 0`.
is_pong : List ℕ → Bool
is_pong (a ∷ b ∷ c ∷ d ∷ []) = a == 0x50 && b == 0x4f && c == 0x4e && d == 0x47
is_pong _ = false

-- The reply's text up to a NUL, where it is of the type 1.
or_value : Reply → List ℕ → List ℕ
or_value (text s) value = c_str s
or_value _ value = value

module _ (redis : Redis) where
  pub record RedisHelper : Type 0 where
    pub context : Bool
    pub server : redis.State

  -- `redisCommand`, with a format of "%s", which takes a `c_str ()`.
  redis_command : Command → RedisHelper → Option (Reply × RedisHelper)
  redis_command c h =
      let (r, s) = redis.command c h.server in
      if h.context then some (r, record h { server = s }) else none

  -- `Connect`, with its answer: 0 or 1, true for 0.
  unfoldable pub connect : Bool → RedisHelper → Bool × RedisHelper
  connect answers h = (answers, record h { context = answers })

  unfoldable pub set_value : List ℕ → List ℕ → RedisHelper → Option (ℕ × RedisHelper)
  unfolding redis_command integer_of
  set_value key value h = do
    r ← redis_command (set (c_str key) (c_str value)) h
    some (integer_of r.0, r.1)

  unfoldable pub get_value : List ℕ → RedisHelper → Option (List ℕ × RedisHelper)
  unfolding redis_command str_of
  get_value key h = do r ← redis_command (get (c_str key)) h; s ← str_of r.0; some (c_str s, r.1)

  unfoldable pub enqueue : List ℕ → List ℕ → RedisHelper → Option (ℕ × RedisHelper)
  unfolding redis_command integer_of
  enqueue queue value h = do
    r ← redis_command (rpush (c_str queue) (c_str value)) h
    some (integer_of r.0, r.1)

  -- `Dequeue`: without a text in the reply the caller's value is as it was.
  unfoldable pub dequeue : List ℕ → List ℕ → RedisHelper → Option (List ℕ × RedisHelper)
  unfolding redis_command or_value
  dequeue queue value h = do
    r ← redis_command (lpop (c_str queue)) h
    some (or_value r.0 value, r.1)

  unfoldable pub push : List ℕ → List ℕ → RedisHelper → Option (ℕ × RedisHelper)
  unfolding redis_command integer_of
  push stack value h = do
    r ← redis_command (rpush (c_str stack) (c_str value)) h
    some (integer_of r.0, r.1)

  unfoldable pub pop : List ℕ → RedisHelper → Option (List ℕ × RedisHelper)
  unfolding redis_command str_of
  pop stack h = do r ← redis_command (rpop (c_str stack)) h; s ← str_of r.0; some (c_str s, r.1)

  ponged : Reply → Option Bool
  unfolding str_of is_pong
  ponged lost = some false
  ponged r = do s ← str_of r; some (is_pong (c_str s))

  -- `ping`, which is `IsAlived` and `IsActived`.
  unfoldable pub is_active : RedisHelper → Option (Bool × RedisHelper)
  unfolding redis_command ponged
  is_active h =
      if h.context
      then (do r ← redis_command ping h; b ← ponged r.0; some (b, r.1))
      else some (false, h)
