-- ===== src/Lib.antt =====
-- Package iip: a protocol of requests and responses over tcp, in which a connection carries many
-- channels. These modules model its core and prove what makes it correct.
--
-- The parts of the program, and how they interact:
-- * A Packet (protocol.go) is a status byte, a path, a channel id and data. CreateNetPacket turns it
--   into bytes and ReadPacket back: Packet, with Packet/Bytes for what it uses of encoding/binary,
--   bufio and io.
-- * The status bytes spell messages: a request or a response is one packet, or a first, some middle
--   ones and a last one. CheckClientPacketStatus and CheckServerPacketStatus accept a packet after
--   another: Status; Status/Checker has the laws that both checks satisfy, and Status/Messages
--   proves from these alone what sequences they accept.
-- * A Connection has channels in a map, hands out their ids, and closes them with itself:
--   Connection. Channels outlive their place in the map, so they stand on a heap and a *Channel is
--   an address.
-- * clientReadLoop and serverReadLoop take packets off the wire, check them and put them into the
--   queue of their channel: ReadLoop.
-- * handleServerLoop and handleClientLoop take packets off that queue, put messages together, call
--   the handler, and send a response or match it to the request that waits: Handlers.
-- * SendPacket splits a packet or sends it whole into the connection's write queue, and writeLoop
--   writes what waits there: Send.
-- * Count and Measure (statis.go) count packets and measure times: Statis.
-- * A Client (client.go) opens and closes connections up to a limit, and its ClientChannels
--   (Client/Channels) put requests into the queue that handleClientLoop matches with the
--   responses: Client.
-- * DefaultContext and the requests (utils.go) carry data under keys: Context.
-- * LoadBalanceClient (lbclient.go) spreads requests over backends: Balance, with Balance/ServerList
--   for the list of servers that it is made of, Balance/Backends for those added and removed, and
--   Balance/TaskChannel for the connections that a backend's client takes in turn.
-- * HttpAdapterServer (httpadapter/http_server.go) passes HTTP requests on to load balance clients,
--   by host and by regular expressions: Routes.
-- * The handlers registered for paths (handle.go), and the counts and measures that a Server keeps
--   in total and by path (server.go): Server and Server/Measures; the connections that it accepts,
--   until Stop: Server/Listening.
-- * serverHandler and clientHandler (handle.go) look at the path of a message, do what the reserved
--   paths ask for, and call the handler registered for any other: Dispatch.
-- * The programs under example that send files in chunks, in both directions: Files.
-- consts.go is Consts. Prelude has the names, lists and maps that all of these share.
--
-- How state and operations correspond: a Go struct is a record with the fields of the same names,
-- and a method is a function of the same name that takes the record and returns the new one with
-- its results, in that order: makeNewChannelId is make_new_channel_id, (*Connection).Close is
-- close, (*Channel).Close is close_channel. An error is a constructor of Reason, Error or
-- StatusError. Each call is one atomic step; what the goroutines do together is a sequence of such
-- steps, in any order (Connection/History, ReadLoop/Streams). Client.newConnection is made of several
-- steps, which Client/Races takes apart; elsewhere it is over before the next step begins.
--
-- Bounds and fuel: bytes and texts are lists of numbers; a uint32 is written out with its remainder
-- by 2 ^ 32, an int64 counter with its remainder by 2 ^ 64. The read loops run for at most one
-- round more than the input has bytes: each round takes ten bytes or more, and ReadLoop.Ending
-- shows that there are rounds enough. The receive queues have no bound: where one is full the code
-- waits for its handler loop, for ever if that has returned, and the model goes on. The loop over chunks runs for one round more than the data holds
-- chunks of 16 MiB, which Send.Messages shows to be enough; the loops of the load balance client
-- run once for each active client, as the code counts. NewLoadBalanceClient makes at most 100 rounds
-- over its servers, as no weight is above 100. Where RemoveRoute does not end, its fuel says so.
-- A file is sent in at most one round more than it has bytes, as each chunk has one or more. Slices
-- that are shifted while a loop reads them are Prelude/Slices.
--
-- Parameters, for code that is not part of the repository: the Write of a tcp connection, the
-- handlers that users register, the texts of error responses, random numbers, hashes, parsed uris
-- and regular expressions, the answers of backends, JSON, and what reads of files give. The range
-- over a Go map visits any key first: a `choice` says which.
--
-- Not modelled: sockets, TLS, deadlines and tickers, the capacity of receive queues and logging; the
-- JSON and text of the statistics; the files of example that echo, and iq, which only call the
-- library.
pub mod Prelude
pub mod Consts
pub mod Packet
pub mod Status
pub mod Statis
pub mod Context
pub mod Connection
pub mod ReadLoop
pub mod Send
pub mod Handlers
pub mod Balance
pub mod Server
pub mod Client
pub mod Routes
pub mod Dispatch
pub mod Files
