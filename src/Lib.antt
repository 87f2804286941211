-- ===== src/Lib.antt =====
-- AeRO-GO is a reverse proxy: clients behind a firewall log in at a public server, name targets
-- that they can reach, and the server opens a port for each; a connection to that port is carried
-- over a pipe that the client has opened to the server.
--
-- How the program's parts interact:
-- - util/message carries every message between server and client: a header of two bytes, a length
--   of four, and a JSON text. Requests and responses of one type share its code and differ in the
--   flag.
-- - server/server.go takes each new stream of a session. By its first message the stream becomes
--   the control connection of a new manager, or a pipe in the pool of an old one, or is closed.
-- - server/manager.go keeps one client: three goroutines pass its messages over two channels, a
--   third channel is the pool of pipes, and a map holds its proxies. server/proxy.go is one public
--   port; netstat/netstat.go finds a free one. server/mux.go picks a proxy for a web request.
-- - client/client.go logs in, client/agent.go answers the server over the control connection and
--   opens a pipe for each request, and client/main.go reads the list of targets. util/pipe/pipe.go
--   carries the bytes between two connections.
-- - netstat/ reads the socket tables of the system; netstat/cmd/main.go is a command that shows
--   them.
-- - util/ has the helpers that both sides use: slices, legal tags, random ids, a moving average.
--
-- Files and the code that they model:
-- - Base and Base/: what Go itself has. Chan: channels with a buffer, whose operations complete,
--   block or panic. Dict: maps with text keys, in a fixed order of entries. Int: signed integers,
--   with the wrap of int64. Decimal: strconv's Itoa and Atoi. Text: strings, as bytes. Eq:
--   comparable types.
-- - Util/Seq, Util/Text, Util/Legal: util/util.go. Util/Uid, Uid/Ids, Uid/Letters: util/uid.go,
--   RandStr as rand_str and RandStr8Base62 as rand_str8. Util/Text/Parts: Split of a Join.
--   Util/Ema: util/ema.go, over a record of floating-point operations, with Util/Whole as an
--   instance. Util/Rotate: RotatingFile of util/zlog/writer.go, over the contents of files;
--   Rotate/Backups: its theorem. Util/Caller: the caller of a log line. Util/Pipe: ReadWriteCloser
--   of util/pipe/pipe.go. Pipe/Join: pipe and Join; Pipe/Carried, Pipe/Ends and Pipe/CutOff: their
--   theorems.
-- - Message: the structs and type maps of util/message/message.go. Message/Frame: Write and Read.
--   Message/Codec: Get and Send. FrameLaws and CodecLaws: their theorems. Message/Delivery: a
--   message on its way from Send to Get. Message/Sample and Message/Plain: instances of the JSON
--   interface.
-- - Netstat/Ports: FindOneAvailablePort, randInts, SetPortRange and FindAvailablePort of
--   netstat/netstat.go; Ports/Scan and Ports/Range: their theorems. Netstat/Listing: its
--   GetAllPorts and ToPorts. Netstat/Linux: the parsers of netstat/netstat_linux.go.
--   Netstat/Tables: its listings of the four tables, and GetAllSocks; Tables/AllPorts: what
--   GetAllPorts has to do with them. Netstat/PortSet: GetAllPortSet. Netstat/Process:
--   extractProcInfo; Process/Names: the names found. Netstat/Windows: netstat/netstat_windows.go;
--   Windows/Layout and Windows/ReadBack: the tables as bytes; Windows/Processes: the names of
--   processes. Netstat/Cmd: main of netstat/cmd/main.go, as run_netstat; Cmd/Display: lookup and
--   displaySockInfo; Cmd/Laws, Cmd/Occupying, Cmd/Filter and Cmd/Shown: its theorems, by branch.
-- - Server/World: the listeners, connections and sent messages that the server's code changes.
--   Server/Address: net.SplitHostPort. Server/Proxy and Server/Forward: server/proxy.go.
-- - Server/Manager: the state and the channel operations of server/manager.go. Manager/Proxies:
--   RegisterProxy, RemoveProxy, ListProxies. Manager/ProxyLaws: their theorems. Manager/Closing:
--   Close. Manager/Running: the rounds of Run, awaitReceive and awaitSend. Manager/Invariant,
--   Manager/Release, Manager/Steps: the theorems, the last on all orders of rounds.
--   Manager/Identity: what a round leaves alone. Manager/Ending: the end of Run, and what can still
--   happen after Close.
-- - Server/Registry: CheckLogin, RegisterManager, awaitManagerDone and filterManagers of
--   server/server.go. Registry/Ids: genId. Registry/Streams: HandleStream. Registry/StreamLaws: its
--   theorems.
-- - Server/System: the whole server: the map, the managers and their goroutines, with the streams
--   that come in and the rounds of awaitManagerDone, in any order. System/Invariant,
--   System/Entries, System/Reachable: what stays true of it. System/Served: the theorems.
-- - Server/Mux: the round robin and selectPort of server/mux.go. Mux/Handlers: the handlers of
--   MuxServer. Mux/Balance, Mux/Select, Mux/Offers, Mux/Routed: theorems on the round robin, the
--   route of a host, the ports that selectPort gives, and the handlers.
-- - Server/Api: ApiServer and Info of server/server.go; Api/Listed: what it answers. Server/Start:
--   server/main.go, NewServer, and the loops of Accept of server/server.go and server/proxy.go.
-- - Client: the records of client/. Client/Main: main of client/main.go. Client/Targets: its target
--   list; Targets/Written: the list as a text. Client/Login: Login of client/client.go.
--   Client/Handshake: a login seen from both sides. Client/Agent, with Laws and Steps:
--   client/agent.go; Agent/Race: two calls of its Close, a statement at a time. Client/Work:
--   NewPipeConn and awaitWork. Client/Reconnect: Run of client/client.go.
-- - Tunnel: server and client together, with the messages between them on the wire: Tunnel/Login,
--   Tunnel/Register (a proxy), Tunnel/Pool (a pipe), Tunnel/Work (a connection).
-- - The Runs of each part: the definitions at concrete inputs.
--
-- Bounds and fuel: RandStr runs on fuel, as does genId and the loop of the server's Run. What the
-- fuel must be is part of their theorems: 10 n + 10 rounds for n letters, since a draw of 63 bits
-- has ten groups of six bits and one of them is usable, and one round more than the draws that are
-- passed over; the Run of a closed manager needs one round more than messages wait. The loops of
-- Join take turns by a list of moves. Every other loop is by recursion on its list, on the number
-- of ports that are left, or on the tries that are left. Lengths on the wire are below 2 ^ 31, as
-- an int32 has them; timestamps in messages are int64 and wrap where the code subtracts them.
--
-- Parameters: the JSON encoding (Message.Codec.Json: a struct of ASCII texts is read back from what
-- was written, and a value has the type that was asked for), floating point (Util.Ema.Float: the
-- laws of IEEE 754 with 0 and 1 at finite values), the random draws, and what the operating system
-- answers: which ports can be listened on, at which address a listener is, the chunks that a reader
-- gives, the clock.
--
-- Further parameters: whether a system call on the log's file succeeds, what is in /proc, the
-- bitmap of RoaringBitmap/roaring (Netstat.PortSet.Bitmap: its array has the numbers that were
-- added, least first), what the API of Windows answers, what fiber gives of a request, and what
-- proxy.Do, io.CopyBuffer (a read and the write of it at a time) and a lookup of an address come
-- to.
--
-- Not modelled: the order within a round of two goroutines of a manager or an agent. A round is a
-- step; so a send that waits while another goroutine closes its channel is outside, and so is a
-- manager whose Run ends before RegisterManager has put it into the map. The session library yamux,
-- the web framework fiber and its routing, snappy and its wrappers, the buffer pools, the set-up of
-- the logging library, the parsing of flags, and tests.
pub mod Base
pub mod Util
pub mod Netstat
pub mod Message
pub mod Server
pub mod Client
pub mod Tunnel
