-- ===== src/Tests.antt =====
-- Tests: the theorems at concrete inputs.
mod Node
mod Codec
mod Queue
mod Threads
mod Flow
mod Commands
mod Wire
mod Line
mod Chain
mod Board
mod Lanes
