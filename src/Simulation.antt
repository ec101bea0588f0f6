-- ===== src/Simulation.antt =====
-- simulation/: the authoritative server.
pub mod AuthoritativeServer
