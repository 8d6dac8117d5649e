-- ===== src/Desk.antt =====
-- src/desk/main.c: the layout of the panes of the desktop. What it draws, the keys and the connections
-- are input and output and are left aside.
pub mod Nodes
pub mod Tree
pub mod Rects
pub mod Tiling
pub mod Apart
pub mod Edit
pub mod Direction
pub mod Resize
pub mod Transpose
pub mod Grid
pub mod Names
pub mod Input
pub mod Keys
pub mod Counting
pub mod Closing
pub mod Halves
pub mod Leaves
pub mod Splitting
pub mod Search
pub mod AutoGrid
mod Tests
