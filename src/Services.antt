-- ===== src/Services.antt =====
-- What the services do to each other's work through the tables and the queues they share.
pub mod Races
pub mod Finishing
