-- ===== src/Lib.antt =====
-- OrderSync: orders travel from a client beside one database to queues beside another.
--
-- The parts. The client (OrderSyncClient) reads events from redis, and sends each as one packet to
-- the server (OrderSyncServer), which queues it on one of several redis servers, chosen by the
-- order's number, and replies with the event's number. Workers (OrderDbSync) take the orders from
-- the queues and run them on the other database.
--
-- The files.
--   Base       lists, words of bytes and blocks of memory, shared by all
--   Wire       what both programs do to a packet: Cipher the byte substitution and the check code,
--              Frame the layout, Agreement the two programs' tables against each other
--   Client     Packet is packet_t (OrderSyncClient/inc/packet.h, src/packet.cc): each method is the
--              function of its name. Tables has its tables. Packet/Build and Packet/Finish are about
--              packets that are built, Packet/Parse about packets that come in. TcpClient is CTcpClient
--              (src/TcpClient.cc). Turn and Run are order_sync_client_t::run
--              (src/order_sync_client.cc): Turn what one wake-up of the poller does, Run the sends,
--              reconnections and receives of one event; Run/Delivery, Run/Progress, Run/Patience and
--              Run/Verdicts are about what the kernel has taken, the server's return, a server that
--              says nothing, and replies
--              IniFile is the reader and writer of configuration files (src/IniFile.cc; OrderDbSync
--              has the same): Ends is about the ends of its loops, Scans and Single follow them over a
--              file of one entry, Access and Update are about what is written and read
--   Server     Packet is PacketBase with InputPacket and OutputPacket
--              (OrderSyncServer/src/proxy/ICHAT_PacketBase.h) and CEncryptDecrypt (EncryptDecrypt.cpp),
--              Packet/Fields the rest of their operations, Kinds to RoundTrip fields written and read;
--              RawCache is CRawCache (cache.cpp), the queue of bytes behind a connection, over MemPool,
--              Append and Refine set it against the list of its bytes;
--              Timers is CTimerUnit with its lists (src/core/timerlist.cpp of the server), of which
--              Ordered, Expiry and Waiting are about the lists' order, CheckExpired and
--              ExpireMicroSeconds;
--              Poller is CPollerUnit with CPollerObject (src/core/poller.cpp): Events has VerifyEvents and
--              ProcessPollerEvents, History the operations one after the other, Process and Fresh what
--              becomes of the kernel's events;
--              ClientUnit is CClientUnit (client_unit.cpp): Defs its state, send and HandleInput,
--              Requests the handling of requests, Events the poller's events with CDecoderUnit's
--              web_input and web_output (decode_unit.cpp)
--              MemPool is CMemPool (mempool.cpp): Sizes its block sizes, Reuse what recycle gives back;
--              Net is CNet (src/core/net.cpp), sockets that listen and that connect; Listener is
--              CListener (listener.cpp): Accepting and Losing are about accept without and with an
--              interruption; Link is what CHelperUnit (helper_unit.cpp) and CGameUnit (game_unit.cpp)
--              have in common, a connection to another server, Held and Tidy its descriptors;
--              GameUnit is the game unit: Passing, Forwarding and Delivering are about its client,
--              Tidiness and Descriptors about its descriptors, Oversized about long packets;
--              HelperUnit is the helper unit: Endless and Leak are about unknown commands and a
--              server that closes
--   Db         Repair is __repair_sql (OrderDbSync/src/SyncFunc.cc), Worker is sync_order with
--              sync_get_table_name (the same file)
--   Redis      redis_helper_t (OrderSyncServer/src/proxy/redis_helper.cc; OrderDbSync and the client have
--              the same text), over an interface of the redis library; Fifo is about its queues
--   Sync       the two programs together: Request and Reply follow one packet each way, Stream many, Event
--              an event from its text to the bytes on the connection, Journey an order from a client's
--              stream to the database
--   Tests      runs on small inputs
--
-- The model. A block of memory is the list of its bytes, a method that may leave its block returns an
-- Option, and none is that fault. Integers are natural numbers with the wrap-around of their width
-- written out; a signed integer is its bit pattern. The machine is little-endian, as _htonll takes it
-- to be. A connection's caches are the bytes that they hold; what the kernel has taken of the bytes
-- to be sent is kept beside them. malloc, the addresses of new[], the kernel's answers to send and
-- recv, what a block of the pool holds when it is handed out, and what the JSON library reads in an order are parameters. A redis server that an
-- order goes to is up. proc_pkg's loop runs on fuel, the number of bytes received, since each packet
-- takes at least two bytes off; the loops over a configuration file on its
-- length, which Ends shows to be enough. The client's loop over
-- one event has no bound of its own: it is run on a list of moments, each with what the kernel would
-- answer to any call then. The loops over packets of the game unit run on the number of bytes, which
-- is enough for the same reason; those of the helper unit and of the listener, which may not end,
-- on any number of turns, with a result that tells whether they have ended.
--
-- Not modelled: how a floating-point number is printed and read, logging, the options of sockets, the MySQL library,
-- the configurations read with XML, the client's waits and its poller, the pool of helpers with its
-- timers, and the modules and processes that start the programs.
pub mod Base
pub mod Wire
pub mod Client
pub mod Redis
pub mod Server
pub mod Db
pub mod Sync
pub mod Tests
