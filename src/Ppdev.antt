-- ===== src/Ppdev.antt =====
-- src/access_ppdev.c: access by the requests that Linux's ppdev devices take.
pub mod Parport
pub mod Pins
pub mod Modes
pub mod Opening
pub mod Blocks
