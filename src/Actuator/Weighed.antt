-- ===== src/Actuator/Weighed.antt =====
-- internal/actuator/actuator.go: what `Apply` does to the network's total weights with one modelled
-- contract.
use go_tron.Prelude.Bytes.{Bytes}
use go_tron.Prelude.Result.{Result}
use go_tron.State.{State}
