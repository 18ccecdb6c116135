-- ===== src/Process/Protocol.antt =====
-- The protocols of the calls of vmnet-helper.
use vmnet_helper.Behaviour.Protocol.{ProtocolOf}
use vmnet_helper.Process.{Call, Reply}
pub use vmnet_helper.Behaviour.Protocol.{Obeys, Obeys->>=, Obeys-map}

abbrev pub Protocol : Type 1
Protocol = ProtocolOf Call Reply
