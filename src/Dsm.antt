-- ===== src/Dsm.antt =====
-- src/lib/dsm_node.cpp, src/include/dsm_node.hpp and src/include/macros.hpp: the nodes that share
-- the pages of one program. RELEASE_CONSISTANCY is defined, as in macros.hpp.
pub mod Node
pub mod Cluster
pub mod Mesh
pub mod Range
pub mod SpinLock
pub mod PageLock
pub mod Tracer
pub mod Start
pub mod Mailbox
