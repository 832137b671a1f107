-- ===== src/TableMgr.antt =====
-- hoxTableMgr of server/hoxTable.cpp: the map from ids to tables and the list of free ids.
pub mod State
pub mod Numbers
pub mod View
