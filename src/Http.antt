-- ===== src/Http.antt =====
-- HTTP: hoxHttpRequest of server/hoxTypes.cpp, the answers of server/hoxSession.cpp and the file
-- manager.
pub mod Socket
pub mod Request
pub mod Reading
pub mod Answer
pub mod Ends
pub mod Files
pub mod Cache
