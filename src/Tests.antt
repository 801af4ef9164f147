-- ===== src/Tests.antt =====
-- Concrete machines, runs on them, and the theorems at inputs that meet their hypotheses.
mod Sim
mod Link
mod Access
mod User
mod Device
mod Sorting
mod Bench
mod Transfers
mod Conf
mod Lpt
mod Detect
mod DeviceId
mod Search
mod Peripheral
mod Python
mod System
mod Solaris
mod Bitmap
mod Debug
