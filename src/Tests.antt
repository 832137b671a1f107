-- ===== src/Tests.antt =====
-- The theorems at concrete games, boards and tables.
mod Referee
mod Table
mod TableMgr
mod Util
mod Splitter
mod Response
mod Http
mod Server
