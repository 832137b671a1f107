-- ===== src/Lib.antt =====
-- hoxServer: a server for games of Xiangqi (Chinese chess).
--
-- A connection is authenticated (server/session.cpp) and gets a session (server/hoxSession.cpp,
-- server/hoxSessionMgr.cpp). A player's session hands its requests to a table
-- (server/hoxTable.cpp). The table keeps the seats, the clock, the counters and the list of moves,
-- and asks its referee (server/hoxReferee.cpp) about each move; it posts events to the players at
-- it, and at the end of a rated game computes their new scores. A manager owns the tables. A client
-- that sends HTTP has its requests read by server/hoxTypes.cpp, and is given files by
-- server/hoxFileMgr.cpp.
--
-- Files:
-- - Prelude, Prelude/Tests, Prelude/Lists, Prelude/Int: Booleans, lists of addresses, integers.
-- - Move: server/hoxMove.h, server/hoxMove.cpp and the colors and statuses of server/hoxEnums.h.
-- - Referee/Board, Referee/Pieces, Referee/Rules, Referee/Game: server/hoxReferee.cpp. A method keeps
--   its name in lower case (_RecordMove is record_move). A piece is an address; `pieces` and
--   `dead_pieces` are the lists m_pieces and m_deadPieces in their order, `cells` the array m_cells.
--   `none` where a result is optional is a dereference of a missing king or a loop out of fuel.
-- - Referee/WellFormed to Referee/Facing: the theorems on the referee.
-- - Table/State, Table/Elo, Table/Seats, Table/Clock, Table/Ending, Table/Moves, Table/Requests,
--   Table/Calls: server/hoxTable.cpp. A table stands in a world with the players (shared pointers are
--   addresses), the events posted so far with their receivers, and the results handed to the database
--   client. `none` is a dereference of an empty seat.
-- - Table/Invariant to Table/Abandoned: the theorems on the table.
-- - TableMgr/State: hoxTableMgr of server/hoxTable.cpp; ids are numbers, and the order of the map by
--   their texts and the text of a number are parameters. TableMgr/Numbers: the theorems on it.
-- - Util/Names: the conversions of server/hoxUtil.cpp between request types, colors and texts, with
--   hoxRequestType of server/hoxEnums.h. Util/RoundTrip: the theorems on them.
-- - Util/Numbers, Util/Times, Util/Statuses, Util/Messages: the other conversions of
--   server/hoxUtil.cpp and hoxRequest of server/hoxTypes.h. What boost::tokenizer makes of a text is
--   a parameter. Util/Parsing: the theorems on requests.
-- - Response/State, Response/Events: hoxResponse of server/hoxTypes.cpp, with the functions
--   create_event_… in lower case. Response/Frames, Response/Lines, Response/Poll: the theorems.
-- - Http/Socket: server/hoxSocketAPI.cpp. Http/Request: hoxHttpRequest of server/hoxTypes.cpp and the
--   answer of server/hoxSession.cpp. Http/Files: server/hoxFileMgr.cpp and get_http_file of
--   server/hoxDbClient.cpp. Http/Reading, Http/Answer, Http/Ends, Http/Cache: the theorems.
-- - Server/State: sessions, players and tables together; a session is named by its id, a player by
--   his address, a table by its number. Server/Players: server/hoxPlayer.cpp. Server/Sessions:
--   server/hoxSessionMgr.cpp, with what it calls of server/hoxSession.cpp. Server/Handlers: the
--   handlers of server/hoxSession.cpp, handle_LOGIN as handle_login; an exception is a result of its
--   own, beside the server as it was left. Server/Login: the authentication of server/session.cpp.
-- - Server/Tables to Server/Strangers: the theorems on the server.
-- - Tests: the theorems at concrete games, tables, managers, texts and servers.
--
-- Bounds and fuel: the loop of _DoesNextMoveExist runs on fuel, since a simulated capture moves a
-- piece to the end of the list that the loop runs over; (n + 1) squared rounds for n active pieces
-- are given, and on sound boards they are enough. Coordinates are integers; the `char`s that text is
-- read to are taken modulo 256. Times and scores are integers without overflow. The last step of the
-- rating change, a float product truncated to an integer, depends on the machine and is a parameter,
-- any function of the factor and of the two results; the time is an argument.
--
-- The loop over the lines of an HTTP request runs on fuel too: one more than the bytes of the input,
-- and each line that it goes on after takes one at least.
--
-- The search for a free session id runs on fuel that the caller gives; without enough of it the
-- model counts as aborted.
--
-- Handlers run without interruption, though the server's threads yield at sockets and where closeIO
-- waits for a thread that writes; what another thread does meanwhile is another step of a run. The
-- rounds of the manager of the sessions and the parts of the end of a session are such steps too; the
-- run of the manager has what the others do while it waits as an argument, any function. In a new
-- login, the end of an older session is not interrupted. The events of a table reach the sessions when
-- the table's method has ended, in the order in which they were posted.
--
-- atoi is `(int) strtol`, where the length of an HTTP body is read; elsewhere numbers are not cut off.
--
-- Not modelled: threads, with the loops of a session that read and write; the registration of an
-- account; the database agent and the calls of its client but for get_http_file, whose accounts are a
-- parameter; logging; the engines under plugins and the test clients.
pub mod Prelude
pub mod Move
pub mod Referee
pub mod Table
pub mod TableMgr
pub mod Util
pub mod Response
pub mod Http
pub mod Server
pub mod Tests
