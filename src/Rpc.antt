-- ===== src/Rpc.antt =====
-- The JSON-RPC layer, src/jsonrpc-c.c.
pub mod Queue
pub mod Json
pub mod Procedures
pub mod Sample
pub mod Reply
pub mod Request
pub mod Connection
pub mod Workers
