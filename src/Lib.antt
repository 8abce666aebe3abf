-- ===== src/Lib.antt =====
-- A verification library for gzv2ray, a platform for building network proxies. It models the core
-- of the program's own logic; so far that is mKCP, the reliable transport over datagrams
-- (transport/internet/kcp), the part of common/buf that it reads through, the sessions of
-- common/mux, the server picker and the address parsers of common/protocol, the cache of
-- common/cache and the fake DNS that stands on it, and the loading of the page of the browser
-- forwarder.
--
-- Parts and files:
--   Prelude         shared names, Boolean tests on the native numbers, lists with indices
--                   (Prelude/Lists, Prelude/Entries), exclusive or (Prelude/Bits), and association
--                   lists for Go's maps (Prelude/Dict)
--   Buf             common/buf/multi_buffer.go: a MultiBuffer is the list of its buffers' unread
--                   bytes; IsEmpty and SplitBytes
--   Kcp/Go          the slice operations and the integer widths of Go: `panic` is what the runtime
--                   does out of range, and arithmetic on uint32 is written with `% 2 ^ 32`
--   Kcp/Segment     transport/internet/kcp/segment.go: ReadSegment is `read_segment`, the three
--                   `parse` methods are `parse_data`, `parse_ack` and `parse_cmd`, Serialize and
--                   ByteSize are `serialize` and `byte_size`
--   Kcp/Packet      transport/internet/kcp/io.go: KCPPacketReader.Read is `read_packet`,
--                   KCPPacketWriter.Write is `write_packet`. The packet header is a parameter by
--                   its size and bytes, cipher.AEAD by the record Aead; IsAead is its contract
--   Kcp/Crypt       transport/internet/kcp/crypt.go and xor.go: Seal is `seal` by what it returns and
--                   `seal_at` by what it leaves in the memory of its `dst`, Open is `unseal`; it
--                   fills the parameter Aead of Kcp/Packet
--   Kcp/AckList     AckList of transport/internet/kcp/receiving.go: three parallel slices, compacted
--                   in place by `clear`, sent by `flush`
--   Kcp/ReceivingWindow, Kcp/Receiving
--                   ReceivingWindow and ReceivingWorker of receiving.go
--   Kcp/SendingWindow, Kcp/Sending
--                   SendingWindow and SendingWorker of transport/internet/kcp/sending.go
--   Kcp/RoundTripInfo
--                   RoundTripInfo of transport/internet/kcp/connection.go
--   Kcp/Config      transport/internet/kcp/config.go: the sizes of flights and buffers
--   Kcp/Connection  Connection of connection.go: `set_state`, `close`, `input`, `flush`, `ping`,
--                   `terminate`, and one round of the loops of ReadMultiBuffer and of
--                   writeMultiBufferInternal; its child modules hold the steps of the state machine
--   Kcp/Channel     one direction of a connection end to end: a sending worker, a network that loses,
--                   repeats and reorders, and the receiving worker of the other side; Kcp/Channel/Pipe
--                   is what such a direction promises to its users
--   Mux/Session     common/mux/session.go: SessionManager, by the names of its methods
--   Protocol/Servers
--                   common/protocol/server_picker.go: ServerList and RoundRobinServerPicker
--   Protocol/Address
--                   common/protocol/address.go with ParseAddress and IPAddress of common/net/address.go:
--                   `read_port_first` and `write_port_first` are ReadAddressPort and WriteAddressPort of
--                   the parser with the port first, `read_port_last` and `write_port_last` of the other
--   Cache/Lru       common/cache/lru.go: Get, GetKeyFromValue and Put by these names, with the addresses
--                   of the list's elements as numbers; Cache/Lru/Interface is the interface Lru with
--                   its laws, Cache/Lru/Recency what a cache of least recent use promises
--   Dns/Fakedns     app/dns/fakedns/fake.go: Holder with GetFakeIPForDomain, its loop `find_free`, and
--                   GetDomainFromFakeDNS, over any cache that has the interface
--   Bundle          release/extra/browserforwarder/index.js: the table of packages that the page
--                   loads, and the order in which their `$init` run
--   Buf/Tests, Bundle/Tests, Cache/Lru/Tests, Dns/Fakedns/Tests, Kcp/Tests, Kcp/Crypt/Tests,
--   Kcp/Connection/Tests, Kcp/Channel/Tests, Mux/Session/Tests, Protocol/Servers/Tests,
--   Protocol/Address/Tests
--                   the theorems at concrete inputs
--
-- How the parts interact: a connection gives each segment that a packet holds to the worker that
-- it is for. A data segment goes to the receiving worker, which keeps it and notes its number in
-- the acknowledgement list; an acknowledgement goes to the sending worker, which takes out of its
-- window what was received. Each method of a worker is one step, and an interleaving of
-- goroutines is a sequence of calls (`run` in Kcp/Receiving/Run). The ground is the worker's lock,
-- which a method holds while it uses the worker, but for ReadMultiBuffer and Read of the receiving
-- worker: they use `leftOver` without it, and are steps for one reader at a time that does not meet
-- Release, which the goroutine of Terminate calls. What a method of a worker reads of the connection is an argument. The
-- connection itself has no lock, and its methods are modelled one at a time (`run` in
-- Kcp/Connection/Life); each reading of the clock is an input. Kcp/Channel composes the workers of
-- two connections: its wires keep every segment and every ping that was ever written, and any of
-- these may arrive at any time and any number of times.
--
-- Bounds and fuel: the reading loop of a packet has the packet's length as fuel, and every round
-- takes at least one byte; the loop that reads the receive window has one round more than the
-- window has entries, and every round removes one; an initialisation of the bundle has the length
-- of its table, and each import stands above the package that has it; the loop of GetServer has
-- one round more than the list has servers, and every round that goes on removes one; the loop for a
-- fake address has a round for each address of the pool, of which the cache holds fewer. The sending
-- worker's invariant holds while its numbers have not wrapped round 2^32; the receiving worker's
-- numbers may wrap. A byte is a number, and the round trips ask that the fields fit their widths.
--
-- Not modelled: sockets, timers, waiting with its deadlines, locks as such, logging, the buffer pool
-- (Release), errors of the writer below, the options of NewAddressParser,
-- and every other package of the program.
pub mod Buf
pub mod Bundle
pub mod Cache
pub mod Dns
pub mod Kcp
pub mod Mux
pub mod Prelude
pub mod Protocol
