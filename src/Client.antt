-- ===== src/Client.antt =====
-- OrderSyncClient: the program that takes orders from its queue and sends them to the server.
pub mod Tables
pub mod Packet
pub mod TcpClient
pub mod Run
pub mod Turn
pub mod IniFile
