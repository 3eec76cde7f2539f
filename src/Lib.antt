-- ===== src/Lib.antt =====
-- librestserver is a small HTTP server in C: a select() loop on sockets
-- (librestserver/tcpserver.c) hands the bytes of a client to a service (service.c), whose parser
-- (requestparser.c) calls the callbacks of the client (rstclient.c) back; when a request is
-- complete, the client finds the resource for it, runs its handler, renders the response
-- (response.c) and gives it to the loop, which sends it. Vectors, maps, sets, string builders and
-- the allocator are in rstutil.c.
--
-- The modules, and the files that they model:
-- - Util.Num, Util.Vector, Util.Map, Util.Set, Util.StringBuilder, Util.Replace:
--   librestserver/rstutil.c and rstutil.h, one module per container, RST_vector_push_back being
--   Util.Vector.push_back and so on; Util.Keys has the strings as keys of a map, Util.Free the
--   RST_FREE of a string; Pool: the allocator at its end.
-- - Parser: librestserver/requestparser.c; State has the record and RST_requestparser_go_until_eq,
--   Line the request line, Header a header line, Url the split of a url, Execute the loop.
-- - Http.Request, Http.Response, Http.Resource: request.c, response.c, resource.c; Http.Query:
--   RST_request_parse_query_string of rstclient.c.
-- - Server.State, Server.Send, Server.Loop: tcpserver.c; Send has RST_selecttcpserver_send and the
--   two handlers of a socket, Loop the rounds of the loop; Steady has the invariant of the server
--   between any two operations; Plain has the build without THREAD_FOR_HANDLER.
-- - Client.State, Client.Collect, Client.Answer: rstclient.c, the callbacks that collect a
--   request, and those that answer it, with RST_service_find_resource. Service: service.c;
--   Service.Requests, Service.Exchange, Service.Split, Service.Whole, Service.Queries and
--   Service.Second follow a request through all of these parts, Service.Arrival and
--   Service.Departure a client through the rounds of the loop.
-- - Json: jsonparser.c. App: testapp/main.c, zoshttpcommon.c and wsconninterface.c.
-- - Prelude and Libc: lists and results over the native numbers, and the functions of the C
--   library on blocks of bytes. Tests: the theorems at concrete inputs.
--
-- A block of memory is a list of bytes, and an access outside it is the error out_of_bounds; a
-- slot that was never written is the error uninitialized; a null pointer, a failed assertion and
-- the call of exit() are errors too. A pointer to an object that two parts share, a WriterData or
-- a client, is an index into a list of them. The release of a string that is null fails its
-- assertion; that a block was freed before is followed in Pool only. What a function prints is not
-- modelled.
--
-- The build modelled is that of Windows with NO_THREADING, where a handler that is scheduled runs
-- at once, and with THREAD_FOR_HANDLER, but for Server.Plain: size_t has 32 bits, and the
-- conversions between EBCDIC and ASCII do nothing. The allocator gives zeros, so a field that an
-- init function leaves alone is zero. A comparator gets 32-bit words.
--
-- A loop over a container runs on the size of the container plus one, which is enough since each
-- round moves its iterator. Other loops run on the length of their text. The loop of the parser is
-- the exception: it need not end, so it runs on a number of rounds that is a parameter, and ends
-- with the error no_progress where they are used up.
--
-- The operating system is a parameter: the answers of select(), accept(), recv() and send() are
-- the record Events, and the files of the test application a function. Not modelled: the mutexes,
-- RST_service_release, RST_selecttcpserver_release, and the handler post_method_handler, which
-- calls functions that no file defines. The parsers of JSON objects, arrays and numbers are
-- parameters: the first does not compile, and the others have no body. The copies of http-parser,
-- multipart-parser, C-Thread-Pool and pthreads are left out.
pub mod Prelude
pub mod Libc
pub mod Util
pub mod Parser
pub mod Http
pub mod Server
pub mod Client
pub mod Service
pub mod Pool
pub mod Json
pub mod App
pub mod Tests
