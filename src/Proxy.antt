-- ===== src/Proxy.antt =====
-- The three request queues of server/djb.c and the operations on them: a proxied request waits in
-- `proxy_new` for a /pull/, and in `proxy_out` for the /push/ that answers it.
pub mod Queues
pub mod Find
pub mod Forward
pub mod Push
pub mod Workers
pub mod Ledger
pub mod Conserve
pub mod Cycle
pub mod Drain
pub mod Pending
pub mod Match
pub mod Ends
pub mod Body
pub use Queues.{Req, Proxy}
unfoldable pub use Queues.{
  say, write, find_req, find_phcl, djb_proxy_add, djb_pull, djb_pull_post, djb_close,
}
unfoldable pub use Forward.{djb_handle_forward}
unfoldable pub use Push.{djb_find_req_dh, djb_push}
