-- ===== src/Apps/Platform.antt =====
-- What the applications use of other libraries: doubles, multi-index containers and names.
use ndn_sim.Rtt.MeanDeviation.{Doubles}
use ndn_sim.Apps.Timeouts.{TimeoutContainers}
use ndn_sim.Apps.Names.{NameComponents}

pub record Platform : Type 1 where
  pub doubles : Doubles
  pub timeouts : TimeoutContainers
  pub names : NameComponents
