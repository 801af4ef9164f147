-- ===== src/Default.antt =====
-- src/default.c: the operations that the tables of access methods share. Each is written over the
-- pin-level methods, as the source is over `port->fn`; what it calls of the other methods
-- (`terminate`, `ecp_fwd_to_rev`, `ecp_rev_to_fwd`) is an argument of its own.
pub mod Poll
pub mod Link
pub mod Nibble
pub mod Compat
pub mod Byte
pub mod Epp
pub mod EcpRead
pub mod EcpWrite
pub mod Counts
pub mod Stays
pub mod Stored
