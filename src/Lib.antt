-- ===== src/Lib.antt =====
-- A model of the core of plgd-dev/device: the bridge, which offers devices over CoAP and registers
-- them with the plgd cloud, and the client, which owns devices, connects to them, observes their
-- resources and watches which devices are online.
--
-- The parts, and the files that model them:
--
--   Cloud      bridge/device/cloud: the manager that registers a device. Cloud/State has the record
--              and the methods that take its mutex (triggerRunner, setCloudConfiguration, setCreds,
--              PublishResources, ...); Cloud/Monad the errors and the monad of the steps of connect;
--              Cloud/Session signUp, signIn, signOff, refreshToken and the resets; Cloud/Publish
--              publishResources and unpublishResources; Cloud/Connect dial, connect, handleTrigger,
--              handleTimer, Post, New, Close and the events. Cloud/Hoare has the rules for steps that
--              may fail; Ready, Invariant, Keeps, History, Online, Outcome, Batches, Renewal and
--              Persist hold the proofs. Cloud/Requests has serveCOAP and its routing.
--   Observer   client/observeDevices.go: processDevices, emit, observe, poll, Cancel and the handler, with
--              Observer/Online, History, Handling and Endings for the proofs.
--   Credential bridge/device/credential/manager.go: the map of credentials.
--   Device     bridge/device/device.go: the resources of a device. It tells the cloud manager what
--              to publish and to unpublish, and makes the links that the manager publishes.
--   Resource   bridge/resources/resource.go and etag.go: observers, operations and ETags.
--   Service    bridge/service/service.go: the devices of a bridge and the routing to them.
--   EventLoop  pkg/eventloop/eventloop.go: the handlers of channels, and the rounds of Run; EventLoop/
--              Search has the proof of the binary search, EventLoop/Dispatch that of Run.
--   Schema     schema/link.go: Schema/Link has links and their lookups, Schema/Endpoints the endpoints
--              and PatchEndpoint.
--   Net        bridge/net: Net/Config has Validate, Net/Query the queries of a request, Net/Endpoints
--              GetEndpoints, Net/Servers the servers of New, Serve and Close, Net/Duplicates ServeCOAP's
--              deduplication over an interface of go-coap's cache.
--   Client     Client/Own has Own of client/core/ownDevice.go with client/core/otm/client.go: Requests
--              the requests, Monad the steps over a device and its connections, Credentials and
--              Transfer the code; Trace, Steps, Script and Success hold the proofs. Client/Observation has
--              client/core/observeResource.go, Client/Shared client/observeResource.go, Client/Connections
--              the connections of client/core/device.go, Client/Cache client/deviceCache.go,
--              Client/Provision client/core/provisionDevice.go and disownDevice.go, Client/Discovery
--              the handler of client/core/getDevices.go, Client/Details the merge of
--              client/getDevices.go.
--   Certificate pkg/net/coap/verify.go.
--   Common     lists, maps and tests that the parts share.
--
-- How the code is read. A struct is a record, an enumeration a data type, a method a function from the
-- record to the record. A Go map, and a sync.Map of go-coap, is a list in which no key stands twice;
-- its order stands for the order of the walk, which is any. A pointer to a connection is a number. A
-- method that holds a lock is one step; a history is a list of events, each of which runs to its end,
-- so that calls which the scheduler interleaves inside one handler are not modelled, save for the loss
-- of a connection while a request waits, and for a Cancel between the two halves of a poll. What lies outside is an argument: the replies of the cloud
-- (Exchange), the dialled connection, the clock and the links (Env), the results of handlers. A device
-- that is owned is a function from the requests it has got to its answer (Peer), so any device that
-- answers. Of the connections of client/core, a dial succeeds or not as an argument says, and the
-- close handler of a connection is an event. Times are nanoseconds since year 1, with the clock after
-- year 292 and tick intervals below 2 ^ 62; an int64 of the cloud is its bit pattern, and a conversion
-- wraps with % 2 ^ 64.
--
-- Fuel. The loop of unpublishResources has one round more than there are hrefs, which is enough since
-- each round takes at least one; the loop of the credential manager's add has two rounds, which are
-- enough below the largest ID; the binary search of the event loop has as many rounds as there are
-- channels.
--
-- Not modelled: sockets, TLS and DTLS, the CBOR and JSON codecs, goroutines as such, the byte limit of
-- one unpublish query, the sending of multicast requests, the options and the API of client over
-- client/core, the thing description, and pkg/security.
pub mod Common
pub mod Schema
pub mod Cloud
pub mod Observer
pub mod Credential
pub mod Resource
pub mod Service
pub mod Client
pub mod EventLoop
pub mod Device
pub mod Net
pub mod Certificate
