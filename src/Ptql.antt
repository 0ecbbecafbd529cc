-- ===== src/Ptql.antt =====
-- The process table query language of src/sigar_ptql.c, as built on Unix with no PCRE: a query is a
-- list of branches `Method.attr.op=value`, parsed, compiled against a table of methods, and matched
-- against processes.
pub mod Types
pub mod Ops
pub mod Table
pub mod Parse
pub mod Init
pub mod Branch
pub mod Accepted
pub mod Literal
pub mod Faultless
pub mod Query
pub mod Match
pub mod Process
pub mod Conjunction
pub mod Sorted
pub mod Find
pub mod Selected
pub mod Picks
mod Tests
pub mod RoundTrip
