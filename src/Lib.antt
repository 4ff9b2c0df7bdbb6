-- ===== src/Lib.antt =====
-- Gravity: the service directory, a registry of publishers and services, and what keeps the
-- directories of several domains in step; with the parts of its client library that publish,
-- subscribe, provide and request: the node, its managers, and the metrics.
--
-- The parts and how they interact.
-- - The service directory answers registrations, removals and lookups, one request at a time. It
--   keeps, by domain, the publishers of each data product and the url of each service, and by url
--   the component and the time of registration. After a change of its own domain it publishes a
--   provider map with the change, and after any change of a product the product's publishers.
-- - The UDP receiver hears the broadcasts of other directories, counts them, and tells its own
--   directory which domains came, restarted or went. The directory passes this on.
-- - The synchronizer takes these commands, asks the directory of each domain for the publisher of
--   its provider map, subscribes to it, and turns what it hears into registrations and removals
--   that it sends to its own directory, one at a time.
-- - In each component the node of the client library hands its work to managers, each with a loop
--   of its own. The publish manager opens a socket for each product, keeps the last values, and
--   sends them again to a new subscriber. The subscription manager chooses the publishers of a
--   product, connects to them, hands what is new to the subscribers, follows the lists of publishers
--   that the directory sends, and tells monitors when nothing came for a time. The service manager
--   answers requests by the provider of the application. The request manager sends requests, waits
--   for the answers and tells the requestors; it also holds the sockets of answers that a provider
--   gives later.
-- - The node itself registers products and services with the directory, looks up what it subscribes
--   to or requests, with retries where no answer comes, and does it all again when it hears that
--   the directory has restarted.
--
-- Where what is modelled.
-- - Directory: src/components/cpp/ServiceDirectory/ServiceDirectory.cpp and .h.
--   Directory/Messages has the messages (src/api/protobufs) as records, Directory/State the class's
--   maps; Locations is updateProductLocations and GetProviders; Publishers is addPublishers and
--   purgeObsoletePublishers; Register and Unregister are the handlers of those names; Requests is
--   handleLookup, the two methods request, and the main loop of start, with its domain commands.
--   The reads by operator[] that make a missing entry are written out, as touch and open_.
--   The other files prove: View, SilentWrites, Purge and Distinct have the lemmas on reads, on
--   what changes none, on the purge and on lists with each url once; Keeping and Described have an
--   independent description of the handlers, and OtherUrls the publishers at other urls.
-- - Domains: validateDomainName and parseDomainCSV (ServiceDirectory.cpp), and parseValidDomains
--   (src/components/cpp/ServiceDirectory/ServiceDirectoryUDPReceiver.cpp).
-- - Receiver: isValidDomain and the loop of start in that file, a round for each message or
--   timeout.
-- - Timeval: addTime, timevalcmp and subtractTime (src/api/cpp/CommUtil.cpp).
-- - Synchronizer: src/components/cpp/ServiceDirectory/ServiceDirectorySynchronizer.cpp. State has
--   createRegistrationRequest and createUnregistrationRequest, Commands the commands Add, Update
--   and Remove, Remotes the messages of other directories, Loop a round of start. Told describes
--   the requests message by message; the other files prove.
-- - ServiceManager: src/api/cpp/GravityServiceManager.cpp, the services that a node itself
--   provides: registration, removal and requests by socket. The application's provider, which
--   may return a null pointer, and the outcome of a bind are parameters.
-- - PublishManager: src/api/cpp/GravityPublishManager.cpp and .h. State has the structs and the
--   class, Commands the requests of the node, Publishing publish and what a message on a
--   publisher's socket does, Loop the loop of start by one message at a time. The objects that
--   publishMapByID and publishMapBySocket share are reached by number. The other files prove.
-- - Node: the class GravityNode in src/api/cpp/GravityNode.cpp and .h. State has the class, World
--   what it calls and waits for, as a record of functions over a state, and the requests to the
--   directory with their retries. Publishers, Services, Subscriptions and Futures are the calls of
--   an application, Address is updateServiceDirectoryUrl, and Reregister is
--   ServiceDirectoryReregister and the listener that calls it. A call that waits for a lock that
--   another call left taken returns none. The other files prove; Delivery and Registering join a
--   node and the directory of Directory by requests and answers of which any may be lost, and
--   Serving says what Restart needs of a directory.
-- - Heartbeat: the thread of the listener in src/api/cpp/GravityHeartbeat.cpp, with its queue of
--   expected heartbeats; Heartbeat/Queue proves.
-- - RequestManager: src/api/cpp/GravityRequestManager.cpp and .h. State has the structs and
--   processRequest, Timeouts the pass over the request map before the poll, Answers the loop over
--   the poll items behind it, Futures createFutureResponse and sendFutureResponse, Loop a round of
--   start. The other files prove. Sockets are numbered as they are made, and the request map,
--   which the source orders by address, is in that order.
-- - SubscriptionManager: src/api/cpp/GravitySubscriptionManager.cpp and .h, and the key of
--   src/api/cpp/DomainDataKey.cpp. Trim is trimPublishers, Subscribing addSubscription and
--   removeSubscription, Monitors setTimeoutMonitor and clearTimeoutMonitor, Timeouts
--   calculateTimeout and a poll that times out, Incoming the products of a publisher's socket,
--   Updates the lists of publishers and the delete list, Loop a round of start. The other files
--   prove. The details that the maps share are reached by number; a monitor or a subscriber is a
--   number, and a set of them is in the order of the numbers, the monitors in that of their
--   coming. A null socket of a poll item is none.
-- - Ports: bindFirstAvailablePort (src/api/cpp/CommUtil.cpp) and the url that addService
--   (GravityServiceManager.cpp) and registerDataProduct (GravityPublishManager.cpp) bind.
-- - DataProduct: the message GravityDataProductPB and operator== of
--   src/api/cpp/GravityDataProduct.cpp.
-- - PollItems: the poll items of a manager, by socket, and the loop that removes one.
-- - Metrics: src/api/cpp/GravityMetrics.cpp, counters by data product, their reset, and the
--   frames by which they are sent and read.
-- - Prelude: tests, lists and maps. A std::map is a list with its keys in the map's order.
--
-- What is sent or published is a list in the state, oldest first in the directory and the
-- synchronizer and newest first in the receiver. Shared objects of the synchronizer are reached by
-- number through a store, since its two maps point to the same ones; sockets are numbers, too. A
-- null pointer that is followed, at() of a missing key, or a loop that does not end is the result
-- none.
--
-- Bounds and fuel. Seconds are a timestamp's microseconds divided by a million, modulo 2 ^ 32; the
-- division by the double 1e6 is exact below 2 ^ 53. Times are at or after the epoch: where addTime,
-- by an int that is negative, would give an earlier one, its seconds are 0. An int position in a
-- list of domains is its 32 bits, extended by the sign where it becomes a size_t, which has 64; an
-- exception of substr is a result. The loop of parseDomainCSV has as much fuel as the text has
-- bytes, and one more: each round passes a comma.
--
-- Not modelled: sockets, threads and the encoding of messages; start-up and configuration, with the
-- node's init, its signals and the publication of its settings; the loggers; the node that the
-- directory publishes through; the UDP broadcaster; the sending of heartbeats; and the other
-- components. The period of a metrics sample is a division of doubles and is left out. An int of
-- the metrics is its 32 bits.
-- A publisher always has a url, as the directory sets it.
pub mod Prelude
pub mod DataProduct
pub mod Directory
pub mod Domains
pub mod Heartbeat
pub mod Metrics
pub mod Node
pub mod PollItems
pub mod Ports
pub mod PublishManager
pub mod Receiver
pub mod RequestManager
pub mod ServiceManager
pub mod SubscriptionManager
pub mod Synchronizer
pub mod Timeval
