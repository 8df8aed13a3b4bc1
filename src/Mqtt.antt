-- ===== src/Mqtt.antt =====
-- mqtt.go: the service between the broker and the inverter.
pub mod Topics
pub mod Discovery
pub mod Service
pub mod Commands
pub mod System
pub mod Client
