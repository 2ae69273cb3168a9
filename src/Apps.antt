-- ===== src/Apps.antt =====
-- apps: the applications that request and answer data. `Platform` gathers what they use of other
-- libraries.
pub mod Timeouts
pub mod Names
pub mod Platform
pub mod Consumer
pub mod Window
pub mod Batches
pub mod Cbr
pub mod Zipf
pub mod Pcon
