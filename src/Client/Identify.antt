-- ===== src/Client/Identify.antt =====
-- Finding a device's instance: WhoIs and DeviceInstance of internal/bacnet/client.go.
pub mod Laws
use bacnet_ip_rest_proxy.Prelude.{
  ℕ, zero, suc, ◌+◌, ◌==◌, Bool, List, [], ◌∷◌, Option, none, some, if◌then◌else◌,
}
use bacnet_ip_rest_proxy.Bacnet.Primitive.{ObjectIdentifier}
use bacnet_ip_rest_proxy.Bacnet.Value.{Value, Values, nil, cons, primitive, object_id}
use bacnet_ip_rest_proxy.Bacnet.Packet.{encode_unconfirmed_request, encode_unicast_packet}
use bacnet_ip_rest_proxy.Bacnet.Services.Discovery.{IAm, encode_who_is_request}
use bacnet_ip_rest_proxy.Client.Calls.{CallResult, returned, refused, undecodable, failed}

abbrev pub service_who_is : ℕ
service_who_is = 8

-- `bacnet.ObjectDevice` and `DeviceInstanceWildcard`
abbrev pub device_type : ℕ
device_type = 8

abbrev pub device_instance_wildcard : ℕ
device_instance_wildcard = 4194303

-- How the wait of an attempt ends if no I-Am of the device ends it.
pub data Ending : Type 0 where
  expired : Ending
  cancelled : Ending

-- What an attempt of `WhoIs` meets: its packet is not sent, or the I-Ams that its channel holds, in
-- their order, until the deadline or the end of the context.
pub data Attempt (Ip : Type 0) : Type 0 where
  unsent : Attempt Ip
  waited : List (Ip × IAm) → Ending → Attempt Ip

pub data WhoIsResult : Type 0 where
  heard : IAm → WhoIsResult
  who_is_unsent : WhoIsResult
  who_is_cancelled : WhoIsResult
  who_is_timeout : WhoIsResult

-- The packet that each attempt sends.
unfoldable pub who_is_packet : List ℕ
unfolding encode_who_is_request
who_is_packet = encode_unicast_packet (
    encode_unconfirmed_request service_who_is
      (encode_who_is_request (record { low_limit = none; high_limit = none })))

module _ {Ip : Type 0} (same : Ip → Ip → Bool) (to : Ip) where
  -- The first I-Am from the device's address; those of other devices are passed over.
  unfoldable pub first_from : List (Ip × IAm) → Option IAm
  first_from [] = none
  first_from ((from, iam) ∷ events) =
      let rest = first_from events in if same from to then some iam else rest

  -- The loop over the attempts, with how many are left and how many there were.
  unfoldable pub who_is_loop : ℕ → (ℕ → Attempt Ip) → ℕ → WhoIsResult
  unfolding first_from
  who_is_loop zero attempts sent = who_is_timeout
  who_is_loop (suc left) attempts sent =
      let rest = who_is_loop left attempts (sent + 1) in
      elim (attempts sent) [
        | unsent ↦ who_is_unsent
        | waited events ending ↦ elim (first_from events) [
          | some iam ↦ heard iam
          | none ↦ elim ending [ cancelled ↦ who_is_cancelled | expired ↦ rest ]
        ]
      ]

  -- `WhoIs`, with the number of retries.
  unfoldable pub who_is : ℕ → (ℕ → Attempt Ip) → WhoIsResult
  unfolding who_is_loop
  who_is retries attempts = who_is_loop (retries + 1) attempts 0

-- What `DeviceInstance` returns: the number, or its error, which wraps that of `WhoIs` and says
-- what came of the read where there was one.
pub data Identified : Type 0 where
  number : ℕ → Identified
  not_heard : WhoIsResult → Identified
  not_read : WhoIsResult → CallResult Values → Identified
  not_device : WhoIsResult → Values → Identified

-- The object identifier that is the only value.
unfoldable pub object_in : Values → Option ObjectIdentifier
object_in (cons (primitive (object_id o)) nil) = some o
object_in values = none

-- What is made of the reply about the wildcard device's object-identifier.
unfoldable pub device_of : WhoIsResult → Values → Identified
unfolding object_in
device_of e values = elim (object_in values) [
  | some o ↦ if o.object_type == device_type then number o.instance_number else not_device e values
  | none ↦ not_device e values
]

unfoldable pub wildcard_result : WhoIsResult → CallResult Values → Identified
unfolding device_of
wildcard_result e (returned values) = device_of e values
wildcard_result e (refused why) = not_read e (refused why)
wildcard_result e (undecodable why) = not_read e (undecodable why)
wildcard_result e (failed why) = not_read e (failed why)

-- The wildcard device.
unfoldable pub wildcard : ObjectIdentifier
wildcard = record { object_type = device_type; instance_number = device_instance_wildcard }

-- The rest of `DeviceInstance` after `WhoIs` failed: `done` is the test that the context has ended,
-- and `read` is ReadProperty of the wildcard device's object-identifier.
unfoldable pub ask_wildcard :
    WhoIsResult → Bool → (ObjectIdentifier → CallResult Values) → Identified
unfolding wildcard_result wildcard
ask_wildcard e done read = if done then not_heard e else wildcard_result e (read wildcard)

-- `DeviceInstance`, from the result of `WhoIs`.
unfoldable pub device_instance :
    WhoIsResult → Bool → (ObjectIdentifier → CallResult Values) → Identified
unfolding ask_wildcard
device_instance (heard iam) done read = number iam.device.instance_number
device_instance who_is_unsent done read = ask_wildcard who_is_unsent done read
device_instance who_is_cancelled done read = ask_wildcard who_is_cancelled done read
device_instance who_is_timeout done read = ask_wildcard who_is_timeout done read
