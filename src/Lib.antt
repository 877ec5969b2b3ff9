-- ===== src/Lib.antt =====
-- goads, a Go client of TwinCAT devices that speak ADS over AMS and TCP.
--
-- The program. Package `ams` (ams/*.go) holds the packets of the protocol. Each packet is a struct
-- with a TCP header, an AMS header and fields, and has methods `Encode` and `Decode` on `ams.Buffer`,
-- a byte buffer that remembers its first error. client.go runs one goroutine, `receive`, that decodes
-- the packets of a connection. It answers the device's requests for its state, gives notifications
-- to a callback, and gives a response to the channel that `send` has registered under the invoke id
-- of the request. symbol.go asks the device for a symbol and for the fields of a struct, and searches
-- the fields by their path. On top of both, variable.go reads and writes variables by their names, and
-- one field of a struct by its path. A session (session.go) caches the symbols of a device with their
-- handles, loads the device's symbol table, and does the same through its cache. A notification manager
-- (notification.go) subscribes to variables of a session and gives the samples that arrive to the
-- callbacks of their subscriptions. encoding.go and encoding_typed.go turn values into bytes and back.
--
-- The files.
--   Base.antt, Base/: tests on numbers, lists over the native numbers, maps (Base/Assoc.antt), strings as
--     bytes (Base/Bytes.antt), signed integers (Base/Int.antt), decimal numbers (Base/Decimal.antt),
--     families indexed by a number (Base/Family.antt).
--   Ams/Outcome.antt: what a Go call comes to, a value or a panic, and the errors of `io.ReadFull`.
--   Ams/Buffer.antt: ams/buffer.go. `Action` is a method on the buffer, and `◌>>=◌` runs two of them.
--     Buffer/Reads and Buffer/Writes hold the rules by which a codec reads and writes bytes,
--     Buffer/Fate those by which it ends on too few of them.
--   Ams/Addr.antt, Ams/Header.antt, Ams/Constants.antt: ams/addr.go, ams/header.go, ams/ams.go.
--     Ams/Addr/Text.antt: `String` and `ParseAddr`. Ams/Addr/Must.antt: `MustParseAddr`.
--   Ams/Read, Write, ReadWrite, ReadState, ReadDeviceInfo: ams/read.go, ams/write.go,
--     ams/readwrite.go, ams/readstate.go, ams/readdeviceinfo.go. Ams/AddNotification and
--     Ams/DeleteNotification: ams/adddelnotification.go. Ams/Notification: ams/notification.go.
--     `encode_request` is `Encode` of the request, `decode_response` is `Decode` of the response, and
--     so on; both return their receiver, since both may change it. The child Wire has the bytes of the
--     packet as an independent list and the predicate that its fields fit their types. The child
--     Framing is about the constructor `New...`; Ams/Requests.antt and Ams/Reports.antt take the
--     constructors together. Ams/Kinds.antt: the requests and responses as one family, each with its codec.
--   Ams/Codec.antt: `Transfers`, what a codec promises on the bytes of a packet.
--   Ams/Packet.antt: the `switch` of `receive` in client.go that picks a packet by its header.
--   Client.antt: `Client`, and `receive` from the bytes of one `conn.Read` to its effects (`turn`).
--     Client/Send.antt: `send` and the callbacks of the methods. Client/Trace.antt: runs of both.
--     Client/Exchange.antt: one request and its response. Client/Methods.antt: the methods as a whole,
--     on a device that answers bytes with bytes; its children: Packets, what a method writes and what
--     answers it; Passing, one packet that does not; Arriving, the packets that come while a call waits;
--     Replies, what the method returns. Client/Life.antt:
--     `Dial`, and `receive` from its start to its end; its child States, what it shows of its states.
--     Client/Steps.antt: calls of `send` and the loop of `receive` as goroutines (`Step`), with the
--     states that they reach (`Reach`); its children: Invariant, what holds in each; Safety, of sends to
--     channels and of what calls return; Progress and Answers, of the way of a response;
--     Sequential, `turn` and `send` beside the steps.
--   Symbol.antt: `FindFieldByPath`, `FindFieldByPathWithOffset`, `FindNestedField` of symbol.go.
--     Symbol/Parse.antt: what `GetSymbol`, `GetDataTypeInfo` and `GetSymHandleByName` (client.go) make of
--     their responses; its child Describe has the bytes of a type as an independent list.
--   Slicing.antt: slices and little-endian numbers of a response, where out of range is a panic.
--   Link.antt: the methods of the client, as the files on top of it call them: a record of functions on a
--     world, with what an operation comes to (a value, an error or a panic) and how operations follow
--     each other.
--   Variable.antt: the operations of variable.go and the requests of symbol.go and client.go below them.
--     Variable/Populate.antt: `PopulateFieldValues`; its child Filling says what
--     it should make of the fields. Variable/Memory.antt: `Device`, what they rely on of
--     a device that keeps bytes under handles.
--   Session.antt: `SymbolRegistry`. Session/Table.antt: the loop of `LoadSymbolTable`; its child Upload
--     has the bytes of a table as an independent list. Session/Access.antt: `GetSymbol`,
--     `getOrCreateHandle`, and `Read` and `Write` up to the requests they send, on what the client
--     returns. Session/Operations.antt: the operations of session.go on a `Link`; its children: Mirrors
--     compares them with those of the client, Load is about `LoadSymbolTable`.
--   Subscription.antt: notification.go. Its children: Kept, what the operations keep; Delivery,
--     the callbacks that a packet should lead to; Callbacks, those behind `Subscribe` and `Unsubscribe`; Owner,
--     the manager of a session (session.go), with AddRemove; Arrivals, from the bytes that come to the
--     callbacks; Workers, the goroutines of `Start`, with
--     Restart; Modes, the constants.
--   Typed.antt: encoding_typed.go. Encoding.antt: encoding.go, with the names of the types (`kind_of`)
--     apart from what each type does; its children Names, an independent table of the names, Kinds,
--     RoundTrip and Refusals.
--   Tests.antt, Tests/: examples on concrete packets.
--
-- Numbers. A `byte`, `uint16`, `uint32` or `uint64` is a natural number; where the code wraps or
-- truncates, `%` is written out, and a theorem that needs a field to fit its type says so. Slices
-- are lists, and a nil slice is the empty list. A `bytes.Buffer` is the list of its unread bytes. Go
-- maps are association lists with one entry for each key.
--
-- Loops. Encoders and decoders recur on a list or on a count; the searches recur on the path. The loop
-- of `LoadSymbolTable` runs on fuel, one unit for each byte of the answer: each turn moves by at least
-- one byte, and the loop ends behind the last. `PopulateFieldValues` has a number of levels that it may
-- go down; one more than the rank of the fields is enough where types are not nested in themselves.
--
-- Strings and floats. A Go string is the list of its bytes. A float is its IEEE 754 bits. The scan of a
-- float from a text, by package fmt, is a parameter; the scan of an integer is a definition, on ASCII
-- bytes.
--
-- The device. It is not part of the program: the operations on a `Link` hold for any, and where a
-- theorem relies on what a device does, it says so by `Device` and `Describes`, which Tests/Devices.antt
-- shows of a small one. Under the methods of the client (Client/Methods) it is any function from the
-- bytes that are written to it, by `send` or by `receive`, to the packets that come then, and the reads
-- that are made before a call's time is up are a number that the call is given: `await` runs on it. In Session/Access what the client returns is an
-- argument, `none` for an error.
-- Pointers to the entries of a session's registry are shared by the code; here what a caller holds of an
-- entry is a copy, an update through a pointer is an update of the registry (`cache_fields`), and what a
-- pointer shows later is read from the registry again (`shown`).
--
-- Concurrency. In Client/Trace a run is a list of events: a packet arrives, or a request is sent with a
-- new channel; each happens as one step. In Client/Steps calls of `send` and the loop of `receive` are
-- goroutines: an atomic addition, a critical section of the client's lock, a write to the socket, a
-- send to a channel, a receive from it and a `close` are one step each, and the steps of different
-- goroutines come in any order. There a call is named by the number of its addition, its channel by the
-- call that makes it, and the invoke ids wrap around at 2 ^ 32. What the surroundings decide (whether a
-- write to the socket works, which case a `select` takes, when the time is up) is an argument or a
-- choice of steps. Requests of the device and notifications do not touch the handler map, so they are no
-- steps there. In Subscription/Workers the goroutines of a notification manager are treated in the
-- same way. Other operations are one step, as the locks make them.
--
-- Callbacks. The callbacks of users are not part of the program. On what calls they panic is a parameter
-- of Subscription (`panics`): `receive` recovers the panic around the whole callback of the manager, so
-- what stands behind it in the packet is left out (`unless_panicked`). What else they do is not modelled.
--
-- Not modelled: sockets and `Close` of the client, which closes one; clocks; the buffer pool, since each
-- turn reads its bytes anew; logging; the memory that `make` of a huge count asks for; and
-- `ExportSymbolsToJSON`, which is encoding/json and a file. What a call of `conn.Read` returns is taken
-- for whole packets, as the code takes it; under the methods of the client it is at most 1500 bytes of one
-- packet, as long as the buffer is.
pub mod Base
pub mod Ams
pub mod Client
pub mod Symbol
pub mod Encoding
pub mod Link
pub mod Session
pub mod Slicing
pub mod Subscription
pub mod Typed
pub mod Variable
pub mod Tests
