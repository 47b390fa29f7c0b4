-- ===== src/Session.antt =====
-- server/src/session.c: the users and channels of the server, who is in which channel, and which
-- users and channels have messages waiting. The state, the tables, the member records and the
-- registration of users and joins are modules of their own.
pub mod State
pub mod Tables
pub mod Membership
pub mod Registration
pub mod Counts
pub mod Effects
pub mod Rename
pub mod Registered
pub mod Joins
pub mod Leaves
