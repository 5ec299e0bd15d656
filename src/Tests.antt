-- ===== src/Tests.antt =====
-- The theorems at concrete inputs: one example each, on small states of the program's parts.
mod Fixture
mod Processes
mod Scheduling
mod Run
mod Disk
mod Memory
mod Bytes
mod Calls
mod Files
mod Volume
mod Blocks
mod Directories
mod Pages
mod Paths
