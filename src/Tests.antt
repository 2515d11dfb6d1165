-- ===== src/Tests.antt =====
-- The definitions on concrete input, and the theorems at inputs where their hypotheses hold.
mod Devices
mod Lists
mod Registers
mod Threads
mod System
mod Progress
mod Resume
mod Calls
mod Returns
mod Order
mod Output
mod Trampoline
mod User
mod Print
