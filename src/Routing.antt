-- ===== src/Routing.antt =====
-- helper/ndn-global-routing-helper.cpp with model/ndn-global-router.cpp, and the route calculation
-- of helper/lfid/ndn-global-routing-helper-lfid.cpp.
pub mod Network
pub mod Origins
pub mod Weights
pub mod Routes
pub mod AllRoutes
pub mod Links
pub mod FillFib
pub mod Lfid
pub mod Install
