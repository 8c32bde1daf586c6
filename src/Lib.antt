-- ===== src/Lib.antt =====
-- A verification library for GoBFD, a daemon for Bidirectional Forwarding Detection (RFC 5880).
--
-- The library models the protocol core in internal/bfd, the tunnel packets and source ports of
-- internal/netio, what state changes do to BGP peers in internal/gobgp, and the validation of a
-- configuration with the conversion of its sessions. A session is a goroutine with one event loop.
-- It receives decoded packets, commands of an operator and the firing of two timers; it keeps a
-- state, which the state machine moves, and hands encoded packets to a sender.
--
-- Packet models internal/bfd/packet.go: the packet's types and constants, Packet/Marshal the
--   encoder, Packet/Unmarshal the decoder. A byte slice is a list of numbers; the encoder returns
--   the buffer as it leaves it. Packet/Header, AuthBytes, RoundTrip, Sizes and Validation are about
--   the two together.
-- Fsm models internal/bfd/fsm.go: the table, the array that init fills from it, ApplyEvent
--   (apply_event) and RecvStateToEvent. Fsm/Rules writes the rules of the RFC apart from the table.
-- Auth models internal/bfd/auth.go: key stores and the sequence window in Auth, Sign in Auth/Sign,
--   Verify in Auth/Verify. A call returns the authentication state, the packet and the buffer that
--   it changes. MD5 and SHA1 are the functions of a record Crypto, of which only the length of a
--   digest is assumed. Auth/Window, Sizes, Refusal, Replay, Accepted, Carrier and Interop are about
--   them.
-- Duration and Jitter model the arithmetic on time.Duration and the jitter of
--   internal/bfd/session_packet.go; products keep the wrap-around of 64 bits.
-- Session models internal/bfd/session.go, session_packet.go and session_loop.go. The record Session
--   has the fields of the struct, and what its goroutine works with: the timers' intervals, the
--   buffers handed to the sender and the notification channel. Session/Config is NewSession,
--   Session/Timing the interval functions, Session/Transmit the packets that are built, signed and
--   sent, Session/Receive handleRecvPacket and the state machine's actions, Session/Loop the
--   handlers and the loop. Session/Frame, States, Protocol, Traces, Announced, Wire, Sound, Invariant,
--   Reception, Life, Create, Poll, Exchange, Handshake and Stale are about them.
-- Discriminator models internal/bfd/discriminator.go, Intervals internal/bfd/intervals.go, and
--   Unsolicited internal/bfd/unsolicited.go, whose counter is stepped through every interleaving of
--   its loads and compare-and-swaps in Unsolicited/Counter; the counter is
--   an int32. MicroBfd models internal/bfd/micro.go.
-- Manager models internal/bfd/manager.go and its parts. Its two tables hold addresses of entries in a
--   heap, since the code shares each entry by a pointer; an entry holds the session with the channels
--   to its goroutine (Session/Endpoint). Manager is creation and destruction, Manager/Demux the
--   delivery of packets and the sessions that peers open, Manager/Dispatch the fan-out of state
--   changes, the clean-up, the drain and the shutdown, Manager/Echo and Manager/Micro manager_echo.go
--   and manager_micro.go, Manager/Reconcile the three reconciliations, Manager/Serve the turns of a
--   session's goroutine among the calls, and Manager/Calls all of them in any order.
--   Manager/Consistent, Create, Kept, Tables, EchoTables, Invariant, Routing, Passive, Leak, Counting,
--   Reload and Settled are about them. Every session sends its changes to the manager's one channel.
-- Echo models internal/bfd/echo.go; Echo/Signals, Wire and Create are about it.
-- Overlay models internal/netio/vxlan.go and geneve.go, Overlay/Inner overlay_inner.go;
--   Overlay/Headers, Checksum and Strip are about them.
-- Config models the sections of internal/config/config.go that Validate reads, and Config/Validate
--   Validate and its parts, with the four loops over sessions and peers as one; Config/Sound and
--   Valid are about them. A text is a list of bytes; netip.ParseAddr, strings.TrimSpace and the order
--   of floating-point numbers are the functions of a record Library, of which nothing is assumed.
-- Factory models the conversion of a configured session in cmd/gobfd/factory.go, Factory/Policy that
--   of the policy for unsolicited sessions; Factory/Accepted is about Validate, the conversion and
--   the checks of NewSession together.
-- Ports models SourcePortAllocator of internal/netio/rawsock_linux.go, whose loop has as many turns as
--   there are ports; Ports/Allocation is about it.
-- Dampening models internal/gobgp/dampening.go, with the arithmetic on float64 penalties as a record
--   Floats of which nothing is assumed, and BgpHandler internal/gobgp/handler.go, which takes the state
--   changes of the manager and collects the calls of the BGP client. BgpHandler/Message models
--   internal/gobgp/rfc9384.go. Dampening/Explained and BgpHandler/Stranded are about them.
-- Netip has the addresses of Go's net/netip, and Assoc Go's maps.
-- Common holds what they share: tests on numbers, lists as buffers, bit operations and results.
--   Tests has concrete values and runs on them.
--
-- The event loop takes a finite sequence of inputs, each with its own environment: the hash
-- functions, the time, and whether the sender accepts a buffer. The order of the sequence is the
-- order in which the select of runLoop chooses. Each loop is structural, over a list
-- or, in the two allocators, over the attempts that the source makes; only fold_carries of the IPv4
-- checksum runs on fuel, three tests of its loop, which are enough for any sum of 32 bits.
--
-- Not modelled: logging, metrics, the String methods and the accessors of a session; mutexes, since
-- what they guard is changed by one goroutine or by one step; the capacity of a slice beyond its
-- length; the snapshots and listings of the manager; two goroutines inside one call of the manager,
-- whose methods each take the lock once or are taken as one step; and all packages but internal/bfd,
-- apart from the files named above.
pub mod Common
pub mod Assoc
pub mod Netip
pub mod Packet
pub mod Fsm
pub mod Auth
pub mod Duration
pub mod Jitter
pub mod Session
pub mod Discriminator
pub mod Intervals
pub mod Unsolicited
pub mod MicroBfd
pub mod Echo
pub mod Manager
pub mod Config
pub mod Factory
pub mod Overlay
pub mod Ports
pub mod Dampening
pub mod BgpHandler
pub mod Tests
