-- ===== src/Util.antt =====
-- server/hoxUtil.cpp: conversions between values and texts.
pub mod Names
pub mod RoundTrip
pub mod Numbers
pub mod Times
pub mod Messages
pub mod Parsing
pub mod Statuses
