-- ===== src/Tracers.antt =====
-- utils/tracers: what the tracers count before they print it.
pub mod L3Rate
