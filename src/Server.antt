-- ===== src/Server.antt =====
-- OrderSyncServer: the proxy that receives orders and puts them on the queues of the databases.
pub mod Tables
pub mod Net
pub mod Listener
pub mod Packet
pub mod MemPool
pub mod RawCache
pub mod Timers
pub mod Poller
pub mod ClientUnit
pub mod Link
pub mod GameUnit
pub mod HelperUnit
