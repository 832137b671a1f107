-- ===== src/Table.antt =====
-- server/hoxTable.cpp: a table, its players, its clock and its game.
pub mod State
pub mod Elo
pub mod Seats
pub mod Clock
pub mod Ending
pub mod Moves
pub mod Requests
pub mod Calls
pub mod Invariant
pub mod Ended
pub mod Answered
pub mod Kept
pub mod Counted
pub mod Accepted
pub mod Made
pub mod Served
pub mod Scores
pub mod Timers
pub mod Streaks
pub mod Refusals
pub mod Abandoned
pub mod Members
