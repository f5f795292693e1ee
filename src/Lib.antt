-- ===== src/Lib.antt =====
-- docker-control: an HTTP service that manages Docker sandboxes for clients (internal/controller), and
-- the command that runs it (internal/command, cmd/docker-control).
--
-- The parts and how they interact. The command line (internal/command/command.go) writes and reads the
-- configuration file, installs and removes the service, and starts the server. The server
-- (internal/controller/server.go) checks the bearer token, finds the handler of a route
-- and calls the Docker engine client (internal/controller/docker.go), which speaks to the Docker engine
-- over HTTP: sandboxes are containers found by a label that holds their key, snapshots are images found
-- by labels. The terminal (internal/controller/terminal.go) speaks WebSocket with its client
-- (internal/controller/websocket.go), and runs each command by the engine client's ExecStream, which
-- reads the multiplexed output by readDockerStream and hands each chunk back to the terminal.
-- internal/controller/types.go holds the data, the configuration and the tests on keys, names and paths;
-- internal/controller/runtime.go listens, writes the runtime file and reads the environment file.
--
-- The files, with the code that they model:
--   Errors                 the sentinels of types.go; an error is the sentinel that it wraps, and a text
--   Text, Text/*           package strings on texts as lists of bytes, strconv (Text/Decimal and
--                          Text/Numerals), path/filepath's Clean, Join, Dir and Base (Text/FilePaths)
--   Types/Keys             validKey, validImage, validSnapshotID, validSnapshotName, validNamePrefix, secureEqual
--   Types/Paths            safeWorkspacePath, endpointFor, healthEndpointFor; Types/Paths/Inside and
--                          Types/Paths/Parent on where they and their directories lead
--   Types/Config           Config and Validate; Types/Config/Environment ConfigFromEnv with its helpers
--   Bytes, Bytes/*         binary.BigEndian, hex, base64, io.ReadFull on a stream that may break off anywhere
--   Websocket/Defs         readText, writeFrame, close and bytesFrame.add of websocket.go; the files beside
--                          it on what is read (Reading, Loop, Limits, Progress) and written (Writing)
--   Websocket/Handshake    upgradeWebSocket and headerContains
--   Stream                 readDockerStream of docker.go; Stream/Frames and Stream/Bounds on its results
--   Engine/Model           the data of docker.go and types.go, and the requests to the Docker engine
--   Engine/Monad           DockerEngine's state and the surroundings that it runs in
--   Engine/Requests        json, empty, dockerStatus
--   Engine/Sandboxes       find, Get, inspectReadiness, waitForReady, requireReady, container
--   Engine/Images          PrepareImage, pullImage; Engine/Pulls on the pulls that run at once
--   Engine/Lifecycle       List, Ensure, createSandbox, sandboxHostConfig, Remove
--   Engine/Commands        Exec, ExecStream; Engine/Commands/Chunks on the chunks that they hand on
--   Engine/Files           WriteFile, ReadFile; Engine/Files/Confined on where they reach
--   Engine/Tokens          Version, VerifyControlledToken, controlledTokenHash
--   Engine/SnapshotImages  the pure parts of listSnapshots and findSnapshot, and dockerLabelChange
--   Engine/Snapshots       CreateSnapshot, ListSnapshots, RestoreSnapshot, RemoveSnapshot, RemoveAllSnapshots
--   Engine/Waiting         on the polling of waitForReady
--   Engine/Effects         what each operation adds to the trace of requests, by rules for each way to
--                          build a computation
--   Terminal/Hub           TerminalHub.acquire and the release, as atomic steps; Terminal/Hub/Limit on
--                          their count, Terminal/Hub/Pool an abstract pool of windows; Terminal/Workdir
--                          safeTerminalWorkdir
--   Terminal/Messages      the objects that terminal.go reads and writes, before encoding/json
--   Terminal/Session       Serve's loop over commands, randomIdentifier; Terminal/Session/Sent and
--                          Terminal/Session/Ends on what a session sends and how it ends
--   Terminal/Serve         Serve whole, managementTerminal and controlledTerminal
--   Http                   what the handlers read and write: writeJSON, writeError, writeEngineError
--   Server                 ServeHTTP and the handlers on sandboxes and snapshots; Server/Controlled the health
--                          and the controlled endpoint; Server/Files writeFile, readFile, capabilities,
--                          openAPISpec; Server/Access, Server/InvalidKey and Server/Rebuilding
--                          on what they refuse
--   Server/Issued          on the tokens of sandboxes, from newSandboxSpec to VerifyControlledToken
--   Server/Routes          the routes of NewServer; Server/Routes/Aliases on the two names of a resource
--   Server/Dispatch        the whole server: ServeHTTP, the routes and every handler, terminals included;
--                          Server/Dispatch/Opened and Server/Dispatch/Unauthorised on requests without a token
--   Ports                  ListenWithFallback of internal/controller/runtime.go behind the parsing of its
--                          address; Ports/Address net.SplitHostPort, WithPort, EndpointFromListener and the whole
--   EnvFile                LoadEnvFile of internal/controller/runtime.go; EnvFile/Scanning bufio.Scanner's lines
--   Command                preArgument, hasArgument and systemdQuote of internal/command/command.go
--   Command/Machine        the operating system, and computations over it
--   Command/Layout, Command/Flags, Command/LocalFiles, Command/Prepare, Command/Install,
--   Command/Removal, Command/Uninstall, Command/Help, Command/Runs
--                          resolveLayout, package flag, ensureLocalFiles, prepare, runInstall, safeRemoveState,
--                          runUninstall, and Run with runServer, runConfig and runStatus; the files below
--                          them on what they change
--   Command/RuntimeFile    WriteRuntimeFile of internal/controller/runtime.go
--   Command/Effects        what a command asks of the operating system, by rules like those of Engine/Effects
--   Tests                  runs on concrete inputs
--
-- The surroundings. The Docker engine, the clock, crypto/rand, the end of a request's context and of
-- a pull in the background are functions of all that has happened before (the record World of
-- Engine/Monad), so that a theorem for every World holds whatever the engine answers, and whatever other
-- requests do to it in between. A run's state is the trace of its events, the latest first, and the map
-- of pulls. In the same way the record Machine of Command/Machine answers for files, links, listeners,
-- other programs and the terminal of the command line, from the log of all that was asked before; the
-- environment variables are state. encoding/json is a parameter: a response's body is a record of what
-- decoding makes of it at each type, and the terminal and the marker of an installation take an encoder or a
-- decoder. SHA-256, SHA-1, archive/tar's writer and strconv.ParseInt for base 0 are parameters. The network takes
-- or refuses each write of a WebSocket, and `onOutput` each chunk, as functions of what they were given before.
--
-- Bounds and fuel. Texts are bytes; the tests on ASCII that Go makes by code points give the same on
-- bytes. waitForReady's loop is followed for World.rounds rounds, and an error that is no value of the
-- source marks their end; 27 rounds are more than five seconds of pauses of 200 ms allow. readText's loop
-- is given fuel, and a round for each byte of the input and one more are enough; a session's loop is given
-- the same, since each round that goes on has taken a text off the input. That input is finite: all that a
-- client sends. Where it ends with a timeout the client is silent from then on, and a read fails if
-- the connection has a deadline, and else waits for ever. readDockerStream gives
-- its own loop that fuel. Lengths and sizes are compared without wrap-around: `int` and `int64` hold them.
--
-- Exit codes, sizes and times that the Docker engine sends are natural numbers here: it sends no
-- others.
--
-- Not modelled: escaping in URLs (a request is a value of the type Call), the order of the `changes` in
-- a commit (Go's map order, one order here), the order that sort.Slice gives to equal times (the given
-- order here), an archive that breaks off while it is copied, the type assertions on the engine (DockerEngine
-- has all the interfaces), which paths net/http's ServeMux cleans (a request says whether it is redirected),
-- encoding/json's names of members, the format of archive/tar, what `%q` does to
-- characters that need an escape in a message, what package flag prints, the signals that end the server and the
-- timeouts of contexts in the command line, several terminals that run commands with one engine at once (their
-- windows are modelled at once, Terminal/Hub), limits below zero in requests for files, when each
-- byte of a terminal's client arrives within a deadline, a client that never stops sending, the constructors, which
-- only store their arguments, the main function, which calls the command line, and the embedded
-- OpenAPI document.
pub mod Prelude
pub mod Text
pub mod Errors
pub mod Types
pub mod Bytes
pub mod Websocket
pub mod Stream
pub mod Engine
pub mod Terminal
pub mod Http
pub mod Server
pub mod Ports
pub mod EnvFile
pub mod Command
pub mod Tests
