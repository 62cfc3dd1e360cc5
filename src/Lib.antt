-- ===== src/Lib.antt =====
-- BACnet/IP REST proxy: a verification library of the code under internal/.
--
-- The proxy answers REST requests about the variables of BACnet/IP devices. A request's caller is
-- authenticated, its request is evaluated against an ordered list of authorization rules
-- (internal/authz), and what is allowed is asked of the device by a client (internal/bacnet) that
-- sends confirmed requests as UDP datagrams and matches the replies to them by invoke identifier.
--
-- Prelude: the shared names. `Outcome` is a run of Go code: it returns (`ok`), returns an error
--   (`err`), panics (`panic`: a slice or an index out of bounds, a nil pointer) or is cut short by
--   the model's fuel (`out_of_fuel`). `Ensures P r` says that the run r returns a value with P or an
--   error, so it neither panics nor is cut short. Slices are lists of octets, below 256 each;
--   machine words are natural numbers with their wrap-around written out.
-- Bacnet.Tag: internal/bacnet/tag.go (decodeTagHeader is decode_tag_header, appendTagHeader
--   is tag_header). What the source appends to a buffer is what the definitions return.
-- Bacnet.Primitive: the data octets of primitive values, internal/bacnet/tag.go and value.go.
-- Bacnet.Value: internal/bacnet/value.go (AppendValue is value_bytes, AppendContextValue is
--   context_value, decodeApplicationValue, decodeApplicationValues and decodeValues keep their
--   names). Reading from `buf[pos:]` is reading from the rest of the list.
-- Bacnet.Errors: internal/bacnet/errors.go.
-- Bacnet.Packet: internal/bacnet/apdu.go, npdu.go and bvlc.go.
-- Bacnet.Services: internal/bacnet/services.go, with a child for the context-tagged fields, for
--   ReadProperty and WriteProperty, for ReadPropertyMultiple and for Who-Is and I-Am.
-- Client: internal/bacnet/client.go: the client's tables as a record, each part of the code that
--   runs under the lock as a function on them, and any interleaving of these parts as a relation
--   (Client.Reach); Client.Calls is what the service calls make of a request's result. The look-up
--   of a request and the non-blocking send to its channel are one step.
--   Client.Unsolicited says which packets stop the client, Client.Replies where a reply comes from.
--   Client.Identify is WhoIs and DeviceInstance, from the I-Ams that each attempt hears.
-- Authz: internal/authz/types.go and engine.go. What the engine calls of Go's library is the
--   record External, a parameter. The trace that Explain asks for is passed through as an option.
-- Bacnet.Objects: internal/bacnet/objects.go: the names of object types and properties.
-- Cache: internal/api/varcache.go. What the loader calls of the client is the record Device, whose
--   calls change a world; a load is a function from the world to what it gives (`loaded`,
--   `load_failed`, or `endless` for a loop that the model's fuel cuts short) and the world after it.
--   Cache.ObjectList reads the object-list, Cache.Metadata the names and units, Cache.Load a whole
--   device, Cache.Entries keeps the snapshots.
-- Api: access control, internal/api/middleware.go, and visibleVariables of handlers.go; what the
--   variable cache answers is an argument there. Api.Caller is clientIP and bearerToken of the
--   same file. Api.Server is the part of Server that the handlers read, with authorizeVariable
--   over the cache and the statuses of internal/api/httperr.go; Api.Handlers and Api.Listing are
--   the handlers of internal/api/handlers.go, from the request's parts to the reply's.
-- Api.Json: internal/api/dto.go: the JSON of a value, and the value of a written JSON. A
--   floating-point number is its IEEE bit pattern, and its conversions are written out on bits; the
--   conversion to uint64 of 2 ^ 64 or more, which Go leaves open, is a parameter.
-- Auth: internal/auth/auth.go, with the JWT library as a parameter. Auth.Keys is the key cache of
--   internal/auth/oidc.go, each part under the lock as a function, and any interleaving of these
--   as a relation (Auth.Keys.Laws); Auth.Jwk is what is taken from an issuer's documents.
-- Config: internal/config/config.go: defaults, validation (Config.Validate), and the conversion
--   into rules, tokens, issuers and networks, with the package net as a parameter.
-- Examples: the theorems at concrete packets, rules, devices and requests.
--
-- How the parts meet: a handler asks Api.Server for the verdict, which asks Cache for the variable's
-- name if a rule looks at it, and Authz for the decision; the rest of the handler calls the device
-- and converts values with Api.Json. Cache calls the device through the record Device, which
-- Client.Calls describes for the client.
--
-- Fuel: the loops of the decoders run on the length of their buffer plus one. A round reads at
-- least one octet, so this is enough on any input. Reading the metadata of a chunk runs on a fuel
-- above its length, which each halving keeps; the chunks of a load run on the number of objects;
-- the batches of the object-list run on the length that the device reports, which is enough
-- unless the counter of 32 bits wraps around.
--
-- Not modelled: sockets, timers and goroutines (an attempt of a request meets an event, a packet is
-- an argument), the cache's locks and ticker, logging and the texts of errors, JSON text, HTTP
-- routing and responses, the YAML of the configuration and the positions of its errors
-- (internal/config/errors.go), handleListDevices, the mock device and the program's main function.
pub mod Prelude
pub mod Bacnet
pub mod Client
pub mod Authz
pub mod Api
pub mod Cache
pub mod Auth
pub mod Config
pub mod Examples
