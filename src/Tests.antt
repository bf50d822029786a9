-- ===== src/Tests.antt =====
-- Test data, and the theorems at concrete inputs.
mod Cscript
mod Marks
mod Samples
mod Pmem
mod Program
mod Guard
mod Sound
mod Run
mod Main
mod Options
mod Child
mod Fails
mod Colored
mod Marked
mod Total
