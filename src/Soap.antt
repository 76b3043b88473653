-- ===== src/Soap.antt =====
-- aggregator_proxy/nsi_soap: the messages, the element trees, the builder, what the parser asks of
-- lxml, and the parser.
pub mod Builder
pub mod Etree
pub mod Messages
pub mod Parser
pub mod Tree
mod Tests
