-- ===== src/Lib.antt =====
-- Verification of rtz-server, the server that openpilot devices and their owners talk to.
--
-- The parts of the program and the files that model them:
--
--   internal/server/middleware.go (requireAuth, requireDeviceOwner, requireDeviceOwnerOrShared,
--     requireCookieAuth): Server/Middleware.antt, with what a handler reads and answers in
--     Server/Http.antt. A middleware is a function from the request's context to a step: an abort with
--     its status, a call of c.Next with the context that it has written to, a return with neither, or
--     a panic. Early returns are do blocks. Theorems: Server/Middleware/Attempts, Auth, Owner, Shared
--     and Cookie.
--   internal/server/routes.go (applyRoutes and its groups): Server/Routes.antt, a table of the routes
--     with their guards, and the chain of guards in front of a handler. How gin goes on after a
--     middleware is the parameter Gin.
--   internal/utils/jwt.go (VerifyJWT, VerifyDeviceJWT): Jwt.antt; theorems in Jwt/Laws.antt.
--   internal/db/models (rows and queries): Models/Rows.antt and Models/Queries.antt.
--   internal/db/models/int64_array.go (Scan, scanString, Value): Models/Int64Array.antt.
--   internal/utils/checksum.go (LuhnValid, checksum): Luhn.antt; the sum over the digits is in
--     Luhn/Digits.antt, what the check detects in Luhn/Detection.antt.
--   internal/config/config.go (Config, the defaults of LoadConfig, Validate): Config.antt;
--     (overrideFlags): Config/Flags.antt.
--   internal/logparser/parser.go (DecodeSegmentData): LogParser/Decoder.antt, a fold over the events
--     of a log, over the types in LogParser.antt.
--   internal/logparser/queue.go (processLog): LogParser/Processing.antt; (Start, Stop, AddLog):
--     LogParser/Scheduler.antt, the steps of the goroutines on the queue that they share.
--   internal/server/websocket/rpc.go (Call): Server/Rpc.antt.
--   internal/server/controllers: Controllers/. A handler is a function from the request's context and body
--     to its answer and the database that it leaves (Controllers/Handler.antt).
--     v1/devices.go (PATCHDevice, POSTDeviceAddUser, POSTDeviceUnpair, GETDeviceLocation):
--     Controllers/Devices.antt; v1/navigation.go: Controllers/Navigation.antt; v2/pilot.go:
--     Controllers/Pilot.antt, with GenerateDongleID of internal/db/models/device.go in
--     Models/DongleId.antt; v1/route_files.go (GETRouteFile, routeSegmentMetadata, the names and the
--     URLs): Controllers/RouteFiles/Files.antt, Segments.antt and Names.antt.
--     v1.4/upload.go: Controllers/Upload.antt.
--     Controllers/Ownership.antt is the abstract machine of who owns a device, and the requests of which it
--     sees the effect.
--
-- A handler runs behind the guards of its route, on the context that they have written, and calls the
-- queries. requireAuth calls the queries and the tokens' verification, and the guards for owners read the
-- context that it has written. processLog calls the decoder and the queries, and the scheduler runs
-- it in its jobs.
--
-- Shared: Base (tests, lists and integers over the native numbers) and GoText (the text functions of
-- Go's standard library that the code calls, over lists of bytes).
--
-- Libraries are parameters, with what their documentation says of them as laws: gorm is the record
-- Gorm in Models/Gorm.antt, for its writes the record Writes in Models/Writes.antt, the JWT parser and
-- the key formats are Parser and Keys in Jwt.antt,
-- encoding/json and the decompressors are functions, the arithmetic of float64 is the record Floats
-- in LogParser.antt, the replies of NATS and the random bytes are lists, what becomes of a
-- send on a channel is the type Sent in Server/Rpc.antt, and the file system is the
-- record Disk in Controllers/RouteFiles/Files.antt. The modules called Fixtures
-- have instances that keep the laws, for the tests.
--
-- Numbers: int64 and uint64 keep their wrap-around where the code can meet it (the wall time of a
-- route, the conversion to int64, the range of ParseInt). The loop of the checksum and
-- the one that writes the digits of a number run on fuel, the number itself, which has no more digits
-- than that; all else recurs on lists.
--
-- Not modelled: sockets, metrics, the command line, the object storage and the generated Cap'n Proto
-- code, which are input and output of libraries; two requests at once, between whose queries the
-- tables stay the same; the reading of the upload directories in summarizeUploadedRoute and
-- GETDeviceRoutesSegments; the handlers of v1/me.go, v1/prime.go, v1.1, v2/auth.go, mapbox.go and
-- athena.go in internal/server/controllers; and the state of the RPC socket.
pub mod Base
pub mod Luhn
pub mod GoText
pub mod Models
pub mod Jwt
pub mod Server
pub mod Config
pub mod LogParser
pub mod Controllers
