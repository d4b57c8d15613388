-- ===== src/Go.antt =====
-- The parts of Go's standard library that the program's logic rests on: strings, strconv and fmt's
-- numbers, maps and sort.
pub mod Strings
pub mod Numbers
pub mod Maps
pub mod Sort
mod Tests
