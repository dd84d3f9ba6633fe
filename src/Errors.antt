-- ===== src/Errors.antt =====
-- The program's errors: domain codes, Go's error values, and the stack traces of package stackerr.
pub mod Code
pub mod Value
pub mod Stack
pub mod Result
