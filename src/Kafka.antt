-- ===== src/Kafka.antt =====
-- The Kafka controllers: internal/controller/kafka.
pub mod Topic
pub mod Acl
pub mod Connector
