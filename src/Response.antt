-- ===== src/Response.antt =====
-- Responses: server/hoxTypes.cpp.
pub mod State
pub mod Events
pub mod Frames
pub mod Lines
pub mod Poll
