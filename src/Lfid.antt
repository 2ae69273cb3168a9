-- ===== src/Lfid.antt =====
-- helper/lfid: the routing tables of Loop-Free Inport-Dependent routing.
pub mod NextHop
pub mod Fib
pub mod AllNodes
pub mod Graph
pub mod Loops
pub mod DeadEnds
