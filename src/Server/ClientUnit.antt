-- ===== src/Server/ClientUnit.antt =====
-- `CClientUnit` (OrderSyncServer/src/proxy/client_unit.cpp and client_unit.h): one connection of a
-- client. `recv` and `send` of the sockets interface are parameters: what the kernel answers. The
-- caches `_r` and `_w` are the bytes that they hold, in order. Of `_helperpool` the unit sees the
-- queues of the shards and the map of the connected clients. `none` is a fault: an access outside
-- an object, or a division by zero.
pub mod Defs
pub mod Requests
pub mod Events
pub mod Framing
pub mod Corruption
pub mod Undersized
pub mod Reply
pub mod Sending
pub mod Sharding
unfoldable pub use Defs.*
unfoldable pub use Requests.*
