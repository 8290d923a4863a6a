-- ===== src/Pairing.antt =====
-- src/snapshot-store/pairing.ts: which line of the old snapshot each line of the new one continues. `Pins`
-- has the candidate pins, `Backbone` the pins on every best increasing chain, `Lcs` the alignment of
-- a leaf by its only longest common subsequence, and `Align` the recursion over intervals. A list of
-- lines is the list of their canonical hashes, since a line's number is its index plus one.
pub mod Pins
pub mod Backbone
pub mod Lcs
pub mod Align
pub mod Pairs
