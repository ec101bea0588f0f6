-- ===== src/Routing.antt =====
-- include/silicon_switch/routing and src/silicon_switch/routing.
pub mod RouteTable
pub mod ArpCache
pub mod Engine
pub mod Encapsulation
