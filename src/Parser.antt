-- ===== src/Parser.antt =====
-- librestserver/requestparser.c and requestparser.h: the incremental parser of HTTP requests. The
-- callbacks of RST_RequestParserSettings act on what `parser->data` points to, a value of type
-- `C` here, and get the parser's fields that they read. A size_t has 32 bits, as a pointer has
-- (the program casts one to the other through int).
pub mod State
pub mod Header
pub mod Line
pub mod Url
pub mod Execute
