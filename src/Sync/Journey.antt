-- ===== src/Sync/Journey.antt =====
-- The whole way of an order: from a client's stream through the server's loop
-- (OrderSyncServer/src/proxy/client_unit.cpp) into a shard's queue, and from there by the turns of a
-- worker (OrderDbSync/src/SyncFunc.cc) to the database.
use order_sync.Server.ClientUnit.{ClientUnit}
use order_sync.Sync.Stream.{Order}
use order_sync.Db.Worker.{Worker}
