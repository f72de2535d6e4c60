-- ===== src/Db.antt =====
-- OrderDbSync: the workers that take orders from the queues and run them on the database.
pub mod Repair
pub mod Worker
