-- ===== src/Session.antt =====
-- The packet handler of src/server/server.cpp and the commands of src/common/commands that it runs.
-- A handler works on the state of one connection and on what all connections share; what it has
-- written before an exception stays written.
pub mod Run
pub mod Commands
pub mod Handler
pub mod Jobs
pub mod Open
pub mod Access
pub mod Identity
pub mod Moves
pub mod Directory
