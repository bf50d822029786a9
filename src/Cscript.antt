-- ===== src/Cscript.antt =====
-- src/libcscript: printing of characters, errno values, signals and wait statuses, the table of
-- colors, names of files and the guarded malloc. One module for each source file or pair of them.
pub mod Esym
pub mod Errors
pub mod WaitStatus
pub mod Show
pub mod Sname
pub mod Named
pub mod Color
pub mod PrintFh
pub mod DebugFh
pub mod Ended
pub mod Reported
pub mod Ascii
pub mod Symbols
pub mod Listing
