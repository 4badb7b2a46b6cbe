-- ===== src/Monitor/Fault/Outcomes.antt =====
-- What a fault leaves behind.
use carrels.Monitor.State.{Monitor}
