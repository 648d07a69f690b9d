-- ===== src/Agenticd/Server.antt =====
-- crates/agenticd/src/server.rs: envelopes, the dispatch of requests, and the loop of a connection.
pub mod Envelopes
pub mod Dispatch
pub mod Versions
pub mod Refusals
pub mod TurnedAway
pub mod ReadBack
pub mod Connection
pub mod Named
pub mod Order
