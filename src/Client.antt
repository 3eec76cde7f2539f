-- ===== src/Client.antt =====
-- librestserver/rstclient.c and rstclient.h: the callbacks that collect a request from the parser
-- and answer it. The library is taken as it is built on Windows with NO_THREADING: the parser is
-- that of requestparser.c, __e2a_l does nothing, and a scheduled function runs at once.
pub mod State
pub mod Collect
pub mod Answer
