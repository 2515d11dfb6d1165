-- ===== src/ExceptionPrint.antt =====
-- arch/cpu/exceptions/exception_print.c, the report of an exception, and the names of arch/cpu/modes.c.
pub mod Names
pub mod Report
