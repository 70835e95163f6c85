-- ===== src/Examples.antt =====
-- The theorems at concrete inputs, and runs of the code.
mod Versions
mod Compaction
mod Marks
mod Commits
mod Numbers
mod Subcompactions
mod Writes
mod Committing
mod Matching
mod Lookups
mod Manifests
mod Picks
