-- ===== src/Http.antt =====
-- The HTTP objects of the library: request.c, response.c, resource.c, and the query string of
-- rstclient.c.
pub mod Request
pub mod Response
pub mod Resource
pub mod Query
pub mod Release
