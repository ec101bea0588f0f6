-- ===== src/Switching.antt =====
-- include/silicon_switch/switching and src/silicon_switch/switching.
pub mod VlanPort
pub mod MacTable
pub mod Forwarding
pub mod Pipeline
pub mod VirtualPort
