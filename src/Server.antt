-- ===== src/Server.antt =====
-- librestserver/tcpserver.c and tcpserver.h: the select() loop as built with THREAD_FOR_HANDLER, and
-- in Plain as built without.
-- What the operating system answers is an argument, one value for each round of the loop.
pub mod State
pub mod Send
pub mod Loop
pub mod Steady
pub mod Plain
