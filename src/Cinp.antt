-- ===== src/Cinp.antt =====
-- The client of the CInP protocol, src/contractor/contractor/cinp: the URIs, the check of a request, the
-- request itself, and the operations.
pub mod Words
pub mod Json
pub mod Uri
pub mod Check
pub mod Request
pub mod Client
pub mod Witnesses
