-- ===== src/Tests/Worker.antt =====
-- Runs of a worker of OrderDbSync: the first byte of a text is its order's type, and the whole text
-- is its statement; a text that begins with 9 is not read.
use order_sync.Base.{
  ℕ, ◌≡◌, refl, List, [], ◌∷◌, Option, none, some, true, false, ◌==◌, if◌then◌else◌, ◌++◌,
}
use order_sync.Db.Worker.{OrderText, Worker, Servers}
use order_sync.Server.ClientUnit.Sharding.{queue, orders_of}
use order_sync.Sync.Request.{request_bytes}
use order_sync.Sync.Stream.{stream, waiting, drain-stream}
use order_sync.Tests.{
  first_byte, open_socket, connection, order_3, two_orders, two_orders_typed, two_shards,
  two_shards-IsNumbered, two_orders-IsOrder,
}
use order_sync.Server.ClientUnit.{ClientUnit, handle_input, drain}

abbrev read_text : List ℕ → Option OrderText
read_text [] = none
read_text (b ∷ bs) =
    if b == 9
    then none
    else some (record { sql = b ∷ bs; order_type = b; stime = 0; mtime = 3; id = 7 })

abbrev month : ℕ → List ℕ
month t = t ∷ []

abbrev worker : Worker
worker = record {
  redis_active = true;
  queue = (1 ∷ 5 ∷ []) ∷ (9 ∷ []) ∷ (0 ∷ 41 ∷ 41 ∷ []) ∷ [];
  mysql_connected = false;
  executed = [];
}

abbrev answers : List Servers
answers =
    (record { redis_connects = true; mysql_connects = true; succeeds = false })
    ∷ (record { redis_connects = false; mysql_connects = true; succeeds = true })
    ∷ (record { redis_connects = false; mysql_connects = true; succeeds = true })
    ∷ []

-- What the server's loop leaves of the two orders.
two_orders_drained :
    (v : ClientUnit) × (drain first_byte open_socket 54 (connection (stream two_orders ++ []) [])
      ≡ some (waiting [], v))
    × ((j : ℕ)
        → queue j v.shards
          ≡ queue j two_shards ++ orders_of first_byte 2 j (order_3 ∷ order_3 ∷ []))
unfolding handle_input request_bytes
two_orders_drained =
    let (v, done, sent, w, r, queues) =
      drain-stream first_byte open_socket two_orders (connection (stream two_orders ++ []) []) []
        (λ c n. refl) two_orders-IsOrder two_shards-IsNumbered two_orders_typed refl refl refl in
    (v, done, queues)

abbrev drained : ClientUnit
drained = two_orders_drained.0

-- The worker of the shard 1.
abbrev worker_1 : Worker
worker_1 = record {
  redis_active = true;
  queue = queue 1 drained.shards;
  mysql_connected = false;
  executed = [];
}
