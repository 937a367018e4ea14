-- ===== src/Engine.antt =====
-- dse/network/engine.c: the marshal lists, and the way between the signal vector and the message
-- buffers.
pub mod Member
pub mod ToMessages
pub mod ToSignals
pub mod Pack
pub mod Lists
