-- ===== src/Search.antt =====
-- src/components/search_layer: the skip list of a compute node, from anchors to remote nodes.
--
-- Nodes stand in `Nodes`, one at each address; a tower is the list of its pointers, of the length
-- `make_skip_node` allocates. A step that reads or writes past a tower, or through a null pointer, is
-- `undefined_behaviour`. Loops along a level run on fuel, one unit for each node passed.
mod Towers
mod Walk
pub mod Level
pub mod Descend
pub mod Order
pub mod Floor
pub mod Update
pub mod Splice
pub mod Link
pub mod Enter
pub mod Backward
pub mod Ready
pub mod Entry
pub mod Insert
pub mod Middle
pub mod Calibrate
pub mod Async
pub mod Unlink
pub mod Lower
pub mod Remove
pub mod TakeOut
pub mod Reach
pub mod Levels
unfoldable pub use Towers.*
unfoldable pub use Walk.*
