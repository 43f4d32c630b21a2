-- ===== src/Lib.antt =====
-- gofins: a client for the Omron FINS protocol, with a PLC simulator (a Go library).
--
-- The parts and how they interact. A client turns an operation into a command frame, sends it over
-- UDP or FINS/TCP and waits for the response that bears its service id; a listener goroutine
-- decodes what arrives and hands it to the waiting commands, and reconnects. The simulator decodes
-- a frame, reads or writes its memory areas and encodes the response; its inline client does the
-- same without a network. Interceptors wrap the operations of both clients; plugins hear of connects
-- and disconnects, and one of them, the coalescer, answers several reads from one.
--
-- The files, and the code that each models (paths from the repository's root).
--   Base      lists and numbers, Go slices with their capacity (Base/Slices), and how a Go call
--             ends: a value, an error or a panic (Base/Results; error.go)
--   Protocol  header.go and driver.go: headers, memory addresses, commands, requests, responses
--   Bcd       driver.go: encodeBCD, decodeBCD and the overflow check
--   Area      memory_area.go, and the checks of areas of client.go and server.go
--   Server    server.go: the memory (readWords, writeWords, readBits, writeBits), the handler, and
--             in Server/Udp the UDP loop, in Server/Start the start and the TCP accept loop
--   Tcp       transport.go and server.go: FINS/TCP frames, the handshake, the connection loop
--   Codec     client.go and inline_client.go: words, bits and strings as bytes
--   Interceptor  interceptor.go and interceptor_retry.go, interceptor_validation.go,
--             interceptor_metrics.go, interceptor_logging.go, interceptor_tracing.go
--   Inline    inline_client.go
--   Plugin    plugin.go: registration and the notifications
--   Watchdog  plugin_watchdog.go
--   Client    client.go: State (the struct, constructors, settings), Exchange (sendCommand, the
--             listener's deliveries, waitForConnection, triggerReconnect), Operations (reads and
--             writes), Lifecycle (Close, reconnect, listenLoop)
--   Coalescer plugin_coalescer.go
--   Interface client_interface.go, filled by nop_client.go (Nop) and by the client (Real)
--   Shell     examples/client/main.go: Arguments (the parsers), Output, Commands (handleCommand) and
--             Session (the loops of main)
--   Tests     the definitions and theorems at concrete inputs
-- A definition is named after the Go function or type that it models, in snake_case for functions.
-- A file defines a part, and its child modules prove what they are named for; those of Client and
-- Shell hold the definitions too.
--
-- State. A Go object that others share is a part of a world that its functions read and replace:
-- the world is a parameter, with the two functions for the object, and the theorems that need it
-- state that the object read is the one put. An interface value is a name for methods that a
-- parameter gives (Plugin, Client.State), so that a world can hold it. Contexts, clocks, sleeping
-- and the network are parameters. Machine integers are natural numbers with the
-- wrap-around written out; slices carry their capacity where the code reslices past the length.
--
-- Concurrency. Goroutines are sequences of steps that the environment chooses: what the listener
-- receives while a command waits, what a `select` takes, the events of the coalescer. Two commands
-- that wait at once are not modelled, nor are the mutexes.
--
-- Fuel. handleTCPConn runs on one more round than its reader has bytes, which is enough, since every
-- message takes some. reconnect takes its fuel as an argument: one more round than the limit on
-- the attempts is enough, and without a limit the loop may go on for ever. The digit loops of the
-- BCD code run on the number of digits, twenty for a uint64. The loop of the example client's -exec
-- takes fuel as an argument, since an interval makes it run for ever. All other loops are structural.
--
-- Not modelled: sockets, dialling, deadlines and UDP (package net); the text of log lines; a
-- response timeout of zero, which waits for ever; the channel of listener errors; local address detection; the normalisation
-- by time.Date; the generated mocks; the flags, name resolution and dialling of the example client;
-- the example server, a service wrapper around the simulator.
pub mod Base
pub mod Protocol
pub mod Bcd
pub mod Area
pub mod Server
pub mod Tcp
pub mod Codec
pub mod Interceptor
pub mod Inline
pub mod Plugin
pub mod Watchdog
pub mod Client
pub mod Coalescer
pub mod Interface
pub mod Shell
pub mod Tests
