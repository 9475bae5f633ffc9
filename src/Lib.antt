-- ===== src/Lib.antt =====
-- Parts of xray-go: the KCP transport (xray-go/transport/internet/kcp), a reliable byte stream over
-- UDP; the buffers that hold bytes and the pipes that carry them from one part of the program to
-- another; addresses on the wire; the sessions that share one connection, with their frames; the
-- Trojan protocol; a cache; the router, which picks the outbound of a connection; the matchers of
-- domains; and the queue that puts the packets of an upload in order.
--
-- How the parts of KCP interact: `Connection.Input` gets the segments of a packet (`Segment`), and hands
-- data to the receiving worker, acknowledgements to the sending worker and commands to both; a
-- timer calls `flush`, which lets the receiving worker write acknowledgements (`AckList`) and the
-- sending worker write packets, as far as its window, the peer's and the losses allow; `Read` and
-- `Write` take bytes from one worker and give them to the other. The round-trip estimate
-- (`RoundTripInfo`) sets the timers.
--
-- How the others interact: a mux writer splits a stream with `SplitSize`, writes each part behind the
-- metadata of a frame, and the metadata name the target as a parser of `NewAddressParser` writes it; a worker
-- reads frames with the same parser, into new buffers. Trojan writes its header and its packets with
-- a parser of the same kind. A rule of the router asks its conditions, and one of them a matcher of
-- domains, which is a function there and for which Strmatcher has the program's own.
--
-- Files and sources, under xray-go/transport/internet/kcp unless it is said otherwise:
-- - Kcp/Config for config.go, the sizes of the windows. The file config.pb.go has the record.
-- - Kcp/Segment for segment.go and io.go, the three kinds of segment, `Serialize`, `ByteSize`,
--   `parse`, `ReadSegment` and the loop of `KCPPacketReader.Read`.
-- - Kcp/RoundTripInfo for connection.go, `UpdatePeerRTO` and `Update`.
-- - Kcp/AckList for receiving.go, `AckList` with `Add`, `Clear` and `Flush`.
-- - Kcp/Receiving for receiving.go, `ReceivingWindow` (the map is an association list) and
--   `ReceivingWorker`; `SplitBytes` of xray-go/common/buf/multi_buffer.go.
-- - Kcp/Sending and Kcp/Sending/Worker for sending.go, `SendingWindow` (the linked list is a list)
--   and `SendingWorker`.
-- - Kcp/Connection and Kcp/Connection/Events for connection.go, the states, `SetState`, `Close`,
--   `Input`, `flush`, `Ping` and `Terminate`. The child modules Transitions, Handlers and Closing
--   are about runs of them; Writing has the inner loop of `writeMultiBufferInternal`.
-- - Pipe for xray-go/transport/pipe/impl.go, a bounded pipe between two parts of the program: each
--   round of a read or a write, up to its wait, is a step.
-- - Mux/Session for xray-go/common/mux/session.go, the sessions of one connection and their manager.
-- - Lru for xray-go/common/cache/lru.go, a cache by key and by value.
-- - Trojan for xray-go/proxy/trojan/protocol.go, headers and packets over Address and Buf.
-- - Buf for xray-go/common/buf/buffer.go, a slice of bytes with a start and an end, and Buf/Multi for
--   xray-go/common/buf/multi_buffer.go, lists of them.
-- - Address for xray-go/common/protocol/address.go and xray-go/common/net/address.go, addresses with
--   a port on the wire.
-- - Mux/Frame for xray-go/common/mux/frame.go, the metadata in front of the data of a session, and
--   Mux/Writer for xray-go/common/mux/writer.go and reader.go, the frames of a stream and of packets,
--   which take the data apart with Buf/Multi and the targets with Address.
-- - Strmatcher for xray-go/common/geodata/strmatcher, the matchers of domains (matchers.go), their
--   groups and sets (matchergroup_*.go, matcherset_*.go), and Strmatcher/Linear for the matchers over
--   them (valuematcher_linear.go, indexmatcher_linear.go, anymatcher_linear.go).
-- - Router for xray-go/app/router, with the conditions (condition.go, config.go), the balancers
--   (balancing.go) and the rules (router.go), and xray-go/features/routing/dns/context.go.
-- - UploadQueue for xray-go/transport/internet/splithttp/upload_queue.go, packets put in order. The
--   arrivals of a wait are a list; what Go's heap makes of the order of packets with one number is a
--   parameter.
-- The module Prelude has tests, lists and machine words, and Tests has concrete inputs.
--
-- Each handler runs alone, under the locks of the source, and is a function from state to state.
-- The clock is a parameter: the n-th reading of it. Words are natural numbers with the wrap-around
-- written out. Errors of the writer below are ignored, as the code ignores them, and what is
-- written is a list. The loop of the packet reader runs on the length of the packet, since each
-- segment takes bytes; that of `ReadMultiBuffer` on one more than the number of packets held, since
-- each round takes one out; that of a write on one more than the number of bytes, since each round
-- takes a byte or more; so none of them runs out. The loop of a mux write runs on the bytes and the
-- buffers of the stream, since each round takes some away, and that of the reader of frames on the
-- bytes, since each frame has some; the loop of a Trojan payload runs on its bytes. The loop over the
-- occurrences of a keyword runs on one more than the bytes of the text; the reads of an upload queue
-- are on the arrivals that they take.
--
-- Not modelled: sockets, the goroutines of the updaters and of the mux workers, the waits of `Read`
-- and `Write`, logging, security and headers of packets, the table of XUDP connections, the
-- webhooks of the router and its strategies but the one in turn, the hashed and automaton matchers of
-- domains, regular expressions (functions here), and the other parts of the program (DNS, the proxy
-- protocols beside what Trojan writes and reads).
pub mod Prelude
pub mod Kcp
pub mod Pipe
pub mod Mux
pub mod Lru
pub mod Buf
pub mod Address
pub mod Trojan
pub mod Strmatcher
pub mod Router
pub mod UploadQueue
pub mod Tests
