-- ===== src/Server.antt =====
-- server.py: the HTTP requests that the monitor answers. `Request` has a request, its answer and the
-- checks of its headers, `Post` and `Get` the handlers, `Create` the checks before a server starts.
pub mod Request
pub mod Query
pub mod Post
pub mod Accepted
pub mod Get
pub mod Reads
