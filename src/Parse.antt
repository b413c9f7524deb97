-- ===== src/Parse.antt =====
-- src/parse.rs: the parser combinators. `Input` has what needs no number, `Sized` what reads a
-- length first and so stands above the LEB128 codec; `Reads` is the rule set of the round trips.
pub mod Input
pub mod Reads
pub mod Utf8
pub mod Sized
