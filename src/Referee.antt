-- ===== src/Referee.antt =====
-- server/hoxReferee.cpp: the rules of Xiangqi, kept by a board without a user interface.
pub mod Board
pub mod Pieces
pub mod Rules
pub mod Game
pub mod WellFormed
pub mod Undo
pub mod Kings
pub mod Reorder
pub mod Sound
pub mod Legal
pub mod Turned
pub mod Follow
pub mod Search
pub mod Pass
pub mod Validate
pub mod Setup
pub mod Games
pub mod Jumps
pub mod Geometry
pub mod Endgame
pub mod Facing
