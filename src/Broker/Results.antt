-- ===== src/Broker/Results.antt =====
-- The results of a request of broker/client.c.
use vmnet_helper.Prelude.{ℕ, ◌≡◌, refl, Bool, true, false, Option, none, some, arith}
use vmnet_helper.Process.{BrokerReply, error_object, dictionary, other_object}
use vmnet_helper.Broker.{is_zero, read_reply}

abbrev pub is_some : Option ℕ → Bool
is_some none = false
is_some (some n) = true

-- A request gives a serialization exactly when its status is VMNET_BROKER_SUCCESS, whatever the broker replies.
pub serialization_iff :
    (reply : BrokerReply)
    → is_some (read_reply reply).serialization ≡ is_zero (read_reply reply).status
unfolding read_reply
serialization_iff error_object = refl
serialization_iff other_object = refl
serialization_iff (dictionary error network) = ground arith
