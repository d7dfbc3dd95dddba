-- ===== src/Std.antt =====
-- What the program uses of Go's standard library.
pub mod Strconv
pub mod Strings
pub mod Filepath
