-- ===== src/Lib.antt =====
-- Bingle: peers that find one another through relays and talk over DTLS. This library models the
-- parts of bingle_core that carry its protocols, and proves what they keep to.
--
-- The parts and how they interact. A node names a peer by a network endpoint, an address or a
-- channel of a relay. The reliable packet transport sends a block to an endpoint over DTLS, waits
-- for the acknowledgement and sends again; on the other side it acknowledges each data packet and
-- hands it over once in a session. Packets to a peer behind a relay are framed as TURN ChannelData:
-- the relay's handler allots channels to pairs of peers and passes frames on, the client's handler
-- frames and reads them. Nodes that initialize relays exclude one another by the distributed mutex.
--
-- Files and code:
--   Net, Net/Endpoint: std::net as far as it is used, and bingle_core/src/api/network_endpoint.rs
--     (NetworkEndpoint, NetworkEndpointKey, get_key); Net/Endpoint/Keys: when keys are equal.
--   Turn, Turn/ChannelData: the structs of bingle_core/src/turn/turn_handler.rs, and
--     parse_channel_data_header and build_channel_data, which three files hold in the same words.
--   Turn/Relay: TurnRelayHandlerImpl of bingle_core/src/turn/turn_relay_handler_impl.rs. probe is the
--     loop of alloc_channel, install_call the second half of handle_call, incoming_mapped and
--     incoming_unmapped the two halves of handle_turn_incoming.
--   Turn/Client: TurnClientHandlerImpl of bingle_core/src/turn/turn_client_handler_impl.rs.
--   Transport: DtlsReliablePacketTransport of bingle_core/src/packet_transport/mod.rs. Packet holds
--     the packets, State the state and the steps that touch one lock, Setup the constructor and the
--     setters, Inbound dispatch_inbound_packet and the events from DTLS, Send the method send.
--     Keeps and Inbound/Induction carry invariants through any sequence of events.
--   DistributedMutex: ModifiedLamportDistributedMutex of bingle_core/src/distributed_mutex/mod.rs,
--     its message handlers; DistributedMutex/Acquire: acquire and broadcast_request. History holds
--     the actions of a node in any order; Members and Counted hold what acknowledgements keep to.
--   Relays: the choice of relays in bingle_core/src/relay. Corner is is_excluded_corner of
--     corner_exclusion.rs, ProbeFailures relay_probe_failures.rs, KeepAlive next_wait of
--     relay_keep_alive.rs, Cache RelayInfoCache of relay_info_cache.rs, with the lemmas on its list
--     in Cache/Sort and Cache/Unique, its search in Cache/Find and its histories in Cache/Changes.
--     Updater is RelayUpdater of relay_updater.rs: what a status does to the cache, and the order of
--     candidates; Updater/Select is the loop of relay_select_and_query.
--   Stun: StunEndpointFinderImpl of bingle_core/src/stun, its state and what its handlers are told;
--     Stun/Packets the packets it builds and reads, and the reply of SimpleStunServer; Stun/Poll its
--     tick, reset, initialization and the processing of packets; Stun/Runs its histories.
--   Ddb: InMemoryDdbBackend of bingle_core/src/ddb, with its records in Ddb/Record, the dump to a new
--     relay in Ddb/Messages, the eviction of relays in Ddb/Evict, and the registration, refresh and
--     expiry of adverts by bingle_core/src/engine/advert_lifecycle.rs in Ddb/Adverts. Ddb/Store and
--     Ddb/Epoch hold what lookups and the list of relays show.
--   Registration: bingle_core/src/blockchain/registration_group.rs. Checks holds the template of each
--     kind of transaction, Groups the two signing functions; Template, Matches and Accepts say what
--     passes a check, Steps and Decoded what holds of a group, Signed, Recovered, Recovery, InRange
--     and Total what the signing functions return.
--   SendRetry: OfflineWindow and indicates_peer_offline of bingle_local/src/api/send_retry.rs.
--   Base: names of the libraries, Boolean tests, lists, maps, sets, strings and locks; Base/Order
--     sorting and Base/Members membership.
--   The files named Examples hold tests, and the theorems at concrete inputs.
--
-- How the code is read. A lock is its value and the mark that it is poisoned; an operation of the
-- TURN handlers or of the transport does on a poisoned lock what the source does (returns nothing,
-- an error, or panics). An operation that takes several locks one after the other is one step. In
-- the distributed mutex what runs under its one lock is one step. Maps and sets are lists, of which
-- only lookups and sizes are read. Errors are data that hold what the source's texts hold. Logging
-- is left out. The result -1 of handle_call is none. Bytes are numbers below 256 where a theorem
-- needs it. An i64 timestamp is its distance from -2^63, and adding one wraps at 2^64; u16 and u64
-- counters wrap likewise.
--
-- Parameters. The random seed of alloc_channel, the clock of the mutex, the answers of DTLS and of
-- the mutex's send closures, and the installed handler are arguments. What reaches the transport
-- while send waits is a schedule: a list of events for each wait. A waiter of send is a number whose
-- flag is a set of numbers; its own lock is never poisoned, since no code panics while it holds it.
-- One send is followed at a time. The handlers of the STUN finder are read as whether they are set,
-- and what it does as a list of calls. base64, msgpack, the hash and the signature of a registration
-- are a record of functions.
--
-- The clock and the answers that come to the loop of a relay's selection are a list of turns, and an
-- advert's endpoint is read as an address by an argument; what cools down is a test.
--
-- Bounds. The loop of alloc_channel has the source's own bound, one turn for each of the 16383
-- channels of the range. The loop of send has one turn for each retry delay. The loop of acquire has
-- no bound in the source; it runs over the rounds that it is given and says whether it has entered.
-- The loop over the attributes of a STUN packet has one turn for each of its bytes, which is enough
-- since each turn passes over at least four
-- (Stun/Packets/Fuel). The tick counter of the finder wraps at 2^64. An eviction
-- of relays, which takes two locks one after the other, is one step.
-- Messages that come while a request is sent to the members count as coming before the next round.
--
-- Not modelled: DTLS itself, sockets and their multiplexer, the option of the STUN server that
-- plays a broken NAT, the blockchain and database clients, the text format of adverts,
-- cryptography, the engine that starts the threads, the message router, the relay finder's network
-- calls and threads, the local database, command line, bindings and web server; formatting and
-- serialization; the observer of new outbound sessions, a callback that touches no state of the
-- transport; and the variants of the TURN handlers that are compiled for tests only.
pub mod Base
pub mod Net
pub mod Turn
pub mod Transport
pub mod DistributedMutex
pub mod Relays
pub mod SendRetry
pub mod Stun
pub mod Ddb
pub mod Registration
