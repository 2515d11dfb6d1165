-- ===== src/Devices.antt =====
-- The memory-mapped devices of arch/bsp: one module for each driver.
pub mod InterruptController
pub mod SystemTimer
pub mod YellowLed
