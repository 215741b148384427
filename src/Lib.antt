-- ===== src/Lib.antt =====
-- Verification of canbus, a Go library for CAN buses and CANopen.
--
-- The package canbus has frames (frame.go), filters on frames (filters.go), the interface of a bus
-- (bus.go) with its implementations, among them one over a raw CAN socket of Linux
-- (socketcan_linux.go), helpers for the network interface behind it (iface_linux.go), and a multiplexer
-- that hands the frames of one bus to many subscribers (mux.go). The package canopen builds on it: identifiers (canopen/ids.go), typed messages
-- (canopen/marshal.go, nmt.go, heartbeat.go, emcy.go, sync.go), filters (canopen/filters.go) and an SDO
-- client (canopen/sdo.go, sdo_segmented.go, sdo_abort.go), which sends on a bus and waits for its
-- answers on subscriptions of a mux.
--
-- The files:
--   Prelude          shared names, Boolean tests, lists, machine words, results, the laws of & and |;
--                    Prelude/Runs is the monad of methods that change the world and may fail, and
--                    Prelude/Texts are texts as lists of bytes, with the number verbs of fmt.
--   Frame            frame.go: `Frame`, `validate`, `must_frame`, `marshal_binary`, `unmarshal_binary`;
--                    Frame/Payload is its array of 8 bytes, Frame/Text is `string` (String).
--   Filter           filters.go, one definition a function; And, Or and Not are `and_filter`, `or_filter`
--                    and `not_filter`. A nil filter is `none`.
--   Cob              canopen/ids.go: `validate_node`, `cob_id` (COBID), `parse_cob_id` (ParseCOBID).
--   Service          canopen/filters.go, one definition a function.
--   Message          canopen/marshal.go as the interface `FrameCodec` with its laws `IsLawful`; its
--                    children Nmt, Heartbeat, Emcy and Sync are the messages that implement it.
--                    Message/Subscription is SubscribeHeartbeats: the subscriber of Mux, the goroutine
--                    (`forward`), the channel of heartbeats and its reader (`read`).
--   Mux              mux.go: `subscribe`, `cancel`, `close_mux`, and the rounds of the reader,
--                    `check_stop` and `received`; `step` and `run` are sequences of these.
--   Bus              bus.go: the interface; Bus/Logged is the decorator of logged.go.
--   Kernel           the system calls, as a record that the next two take, with the laws of the table of
--                    descriptors.
--   SocketCan        socketcan_linux.go: `dial_socket_can_with_options`, `send`, `receive`,
--                    `close_socket`; SocketCan/Closing is Close with several goroutines in it.
--   Interface        iface_linux.go: the flags (`is_interface_up`, `set_interface_up`,
--                    `set_interface_down`) and `configure_linux_can_interface`.
--   Loopback         loopback.go: the bus, its endpoints, and calls of Send that are under way. Each
--                    critical section is a step, and so is each delivery; `step` and `run` interleave
--                    them, and `none` is a panic.
--   SyncWriter       the SYNCWriter of canopen/sync.go, with the loops that Start starts.
--   Sdo              the SDO protocol: Sdo/Expedited and Sdo/Segmented build and parse its frames,
--                    Sdo/Abort is the text of an abort, Sdo/Acks has the client's filters, Sdo/Client its
--                    exchanges (Sdo/Exchange how they end), Sdo/Download and Sdo/Upload its transfers,
--                    Sdo/Typed the typed reads and writes.
--   Network          the SDO client on one endpoint of a loopback bus and a device on another, whose
--                    answers are a parameter: `loopback_link`, with downloads (Network/Download) and
--                    uploads (Network/Upload). Network/Station is a mux on an endpoint of
--                    a loopback bus, with the steps of both and those of the reader in any order.
--   Tests            runs on concrete inputs, and the theorems at concrete inputs.
--
-- How the code is read. Numbers are natural numbers; a conversion to a narrower type is written out as
-- a remainder, and the ranges of Go's types are hypotheses where they matter. A `[8]byte` is the record
-- `Bytes8`. A (value, error) pair is a `Result`; a method that writes to its receiver takes the receiver
-- and returns it. The texts of errors are left out, and the numbers in them are kept. `copy` and
-- encoding/binary are written out as Go documents them.
--
-- The mux. A channel is closed in the critical section that deletes its subscriber, so one flag stands
-- for both. A critical section is one step, and the goroutines of a program are a list of steps. Where
-- the reader stands (before its look at `stop`, in Receive, returned) is part of the state. The list of
-- subscribers keeps those that have left, and an identifier stands for its subscriber: the model does not
-- say what happens when the 64 bits come round, where the source overwrites the older entry of the map,
-- and theorems that depend on it bound the number of events. Close is one step, as if nothing came
-- between its look at `stop`, the close of `stop` and its critical section.
--
-- The SDO client runs over a `Link`: the bus, the device behind it, and the frames that the mux receives
-- until a wait ends. Each exchange uses a subscriber of Mux with the filter and the buffer of the source.
-- A wait that never ends is the error `forever`. The loop over the segments of a download has the size of
-- the data as its fuel, and takes at least one byte in a round. The loop of an upload is bounded by
-- nothing but the device, so the model takes its fuel as an argument, and `stuck` says that it ran out.
--
-- A download has an independent description, Sdo/Download/Script: the list of its requests, each with
-- the answers that settle it. What comes of a request that is not acknowledged is a value of `Ending`: a
-- refusal of the bus, an abort, or silence.
--
-- The loopback bus. An endpoint is a number, and the map of endpoints a list of numbers. Where two cases
-- of a select are ready, an argument of the step chooses, so the theorems hold for either choice.
-- closeNoLock closes the two channels of an endpoint one after the other, while the select of a Send may
-- run; the model closes them at once. In between a select could send or skip, but not panic. What runs
-- put into a channel and take out of it is computed along the run (Loopback/History), and what one call
-- of Send puts into it is read off the channel before and behind each of its steps (Loopback/Arrivals).
-- Over a loopback bus a Send of Network runs from its start to its end with nobody else in between.
--
-- The text of a frame. `%0*X` and `%d` produce digits by a recursion whose fuel is the number of digits
-- that a uint32 and a uint8 can have.
--
-- The kernel. What the system calls do is an argument of the model, the record `Kernel`; a theorem names
-- the documented behaviour that it needs as a hypothesis: `HasDescriptors` (a socket is a new
-- descriptor, close takes one away, no other call does either), `Carries` (raw CAN sockets carry whole
-- datagrams in order, while nothing else uses the interface) and `HasDevices` (the calls on flags read
-- and write those of the interface that the name in the request gives). Tests/Kernels has a small kernel
-- that satisfies all three. Send and Receive try again after EAGAIN for as long as the kernel answers so;
-- the model takes the number of rounds as fuel, `stuck` says that it ran out, and one round more than the
-- kernel refuses is enough.
--
-- A subscription to heartbeats is a state with the steps of the mux, of its goroutine and of its reader,
-- in any order. A receive from an empty channel takes the heartbeat that the goroutine stands with, which
-- is also how a channel without buffer works.
--
-- Not modelled: the interval of SYNC, the texts of errors other than aborts, the output of a command that
-- failed, the named bit rates, which no code of the package uses, two methods of one SDO client that run
-- at once, two calls of Close of a mux that race, and buffers below 0.
pub mod Prelude
pub mod Frame
pub mod Filter
pub mod Cob
pub mod Service
pub mod Message
pub mod Mux
pub mod Sdo
pub mod Network
pub mod Bus
pub mod Loopback
pub mod Kernel
pub mod Interface
pub mod SocketCan
pub mod SyncWriter
pub mod Tests
