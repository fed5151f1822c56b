-- ===== src/Vfs.antt =====
-- The virtual file system, YYSloth/src/fs/vfs.cpp and YYSloth/include/fs/pathiter.hpp: the parts of a
-- path, the nodes of the tree of names, the walk along a path, and what it resolves to.
pub mod Path
pub mod Entry
pub mod Walking
pub mod Chain
pub mod Child
pub mod Dropping
pub mod Parent
pub mod Resolve
pub mod Missing
pub mod Opening
mod Tests
