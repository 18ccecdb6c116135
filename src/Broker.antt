-- ===== src/Broker.antt =====
-- The client of vmnet-broker: broker/client.c and broker/vmnet-broker.h.
pub mod Results
use vmnet_helper.Prelude.{
  ℕ, zero, suc, ◌==◌, if◌then◌else◌, Bool, true, false, Option, none, some, String,
}
use vmnet_helper.Libc.{ℤ, pos, negsuc}
use vmnet_helper.Os.{to_int}
use vmnet_helper.Process.{
  BrokerReply, error_object, dictionary, other_object, connect_to_broker, send_request, Program,
  returns, call,
}

-- `vmnet_broker_return_t` is an int; these are its names.
abbrev pub broker_success : ℤ
broker_success = pos 0

abbrev pub broker_xpc_failure : ℤ
broker_xpc_failure = pos 1

abbrev pub broker_invalid_reply : ℤ
broker_invalid_reply = pos 2

-- The results of a request: `*status`, and the serialization, `none` for NULL.
pub record Acquired : Type 0 where
  pub status : ℤ
  pub serialization : Option ℕ

abbrev pub is_zero : ℤ → Bool
is_zero (pos zero) = true
is_zero (pos (suc n)) = false
is_zero (negsuc n) = false

-- The object under `REPLY_NETWORK`.
abbrev found_network : Option ℕ → Acquired
found_network none = record { status = broker_invalid_reply; serialization = none }
found_network (some network) = record { status = broker_success; serialization = some network }

-- What is made of a reply. The error is an `int32_t`, the low bits of the integer in the reply.
unfoldable pub read_reply : BrokerReply → Acquired
read_reply error_object = record { status = broker_xpc_failure; serialization = none }
read_reply other_object = record { status = broker_invalid_reply; serialization = none }
read_reply (dictionary error network) = elim (is_zero (to_int error)) [
  | true ↦ found_network network
  | false ↦ record { status = to_int error; serialization = none }
]

-- `connection` says whether the static variable is set; it is returned with the result.
unfoldable pub vmnet_broker_acquire_network : String → Bool → Program (Acquired × Bool)
unfolding read_reply
vmnet_broker_acquire_network network_name true =
    call (send_request network_name) (λ reply. returns (read_reply reply, true))
vmnet_broker_acquire_network network_name false =
    call connect_to_broker
      (λ _. call (send_request network_name) (λ reply. returns (read_reply reply, true)))

unfoldable pub vmnet_broker_strerror : ℤ → String
vmnet_broker_strerror (negsuc n) = "(unknown status)"
vmnet_broker_strerror (pos n) =
    if n == 0
    then "Broker session started"
    else if n == 1
    then "Failed to send XPC message to broker"
    else if n == 2
    then "Broker returned invalid reply"
    else if n == 3
    then "You are not allowed to create a network"
    else if n == 4
    then "Invalid broker request"
    else if n == 5
    then "Network name not found"
    else if n == 6
    then "Failed to create network"
    else if n == 7
    then "Internal or unknown error"
    else "(unknown status)"
