-- ===== src/Asic.antt =====
-- include/silicon_switch/asic and src/silicon_switch/asic.
pub mod BoundedQueue
pub mod FaultInjector
pub mod TrafficStatistics
pub mod SoftwareAsic
