-- ===== src/Lib.antt =====
-- The drawing server of painttyServer-Go, src/server of the repository, and its watchdog.
--
-- The server runs a hall and rooms. A client connects to the hall (RoomManager) to list and open
-- rooms, and to a room (Room) to draw. Both read frames from TCP (Socket), decompress them (Common)
-- and give requests to handlers (Router). Drawing goes to the room's radio (Radio), which appends it
-- to an archive file (BufferedFile) and sends it to every client from a list of pending chunks.
--
-- The modules, with the code that each is about under src/server/pkg:
--   Prelude        names of the libraries, integers that wrap around, maps as association lists
--   Common         Common/Common.go: QCompress and QUncompress
--   Socket         Socket/*.go: Pack has the frames, Reader the state of SocketReader (`buffer`,
--                  `data_size`) and OnData, Client the senders, the close callbacks and Close
--   BufferedFile   BufferedFile/BufferedFile.go: `Buffered` is the struct BufferedFile, and Disk the
--                  operating system's file with the outcomes of its next calls
--   Radio          Radio/Radio.go, and Radio/Utils.go in Radio/Tasks: the goroutine of a client is an
--                  address of `heap`, those of send_helper and write_helper are the list `in_flight`
--   Router         Router/Router.go
--   ErrorCode      ErrorCode/ErrorCode.go
--   Config         Config/ConfigReader.go; Config/Files has the files of the configuration and the salt
--   Room           Room/Room.go and Utils.go; Room/Messages has Requests.go, Responses.go and
--                  Actions.go, Room/Handlers has Handlers.go, Room/Serving the start, the recovery and
--                  the dispatch of packages, Room/Drawing the loop of processClient, Room/Strokes drawings as packs, Room/Greetings
--                  the messages to a new user, Room/Keys the keys, ids and signs
--   RoomManager    RoomManager/*.go; RoomManager/Serving has the start of the hall and the dispatch of
--                  packages, RoomManager/Database the interface of leveldb and the manager over it
--   Server         src/server/painttyServer.go: main, with the events of its process
--   WatchDog       src/watchDog/watchDog.go of the repository
-- Beside its definitions a component has modules of theorems, and a module Runs of runs at concrete
-- inputs.
--
-- How state and operations correspond: a struct is a record with the fields that matter, a method is
-- a function from the state and its arguments to the new state and its results, named as in the code
-- (OnData is on_data). A pointer to a client is a number. A panic is a result: none of an Option,
-- `panics` of an Outcome. A wait for a mutex that is never released is `blocks`. What a handler sends
-- is a list of effects. Methods that hold a mutex are one step.
--
-- Bounds and fuel: int64 and int32 wrap around (int64 and int32 of Prelude/Int). The loop of OnData
-- runs on fuel, the length of its buffer and one, which is enough since every round takes bytes off
-- the buffer. The loop of splitChunk doubles a size of 409600 while a length below 2 ^ 63 has more
-- than 2048 parts, so that 64 doublings are enough. The loop around ListenTCP makes 20 attempts.
--
-- Outside the model, as parameters: zlib, with the law that inflating gives back what was
-- deflated; encoding/json and yaml; the hashes and random bytes; the files of the configuration;
-- the listener; leveldb, whose calls are results, whose iterations are arguments, and which
-- theorems take as an interface with the laws of a map; the connection's writes. The faults of a
-- file are a list of outcomes of its next calls. Not modelled: the logger, the profiling server, the
-- Close of a reader, which nothing calls, the data directory that a room makes, an answer of the hall
-- that cannot be sent, the error of the last Close of an archive file, and stored rooms whose JSON is
-- broken. A schedule of the radio is what its goroutines do, in any order; what is written
-- to a connection beside the radio is not part of it.
pub mod Prelude
pub mod Common
pub mod Socket
pub mod Server
pub mod WatchDog
pub mod BufferedFile
pub mod Radio
pub mod ErrorCode
pub mod Router
pub mod Config
pub mod Room
pub mod RoomManager
