-- ===== src/Port.antt =====
-- The data of src/detect.h and include/ieee1284.h.in, and the runs of functions over them.
pub mod E1284
pub mod Mode
pub mod Status
pub mod Control
pub mod Cap
pub mod Transfer
pub mod Capable
pub mod Machine
pub mod Run
pub mod Clock
pub mod Delay
pub mod Host
pub mod Methods
pub mod Returns
pub mod Quiet
pub mod Time
pub mod Descriptors
pub mod Polling
pub mod Life
