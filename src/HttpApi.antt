-- ===== src/HttpApi.antt =====
-- internal/httpapi: the handlers of the sync routes over the tables of the store.
pub mod Base64
pub mod Push
pub mod Diff
pub mod Page
pub mod Sse
pub mod Pull
pub mod Origin
pub mod Server
