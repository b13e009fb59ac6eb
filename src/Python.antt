-- ===== src/Python.antt =====
-- The values of the dynamic language that the services pass around: what `json.loads` returns, with
-- `datetime` values beside (PostgreSQL rows hold them). Numbers are integers: no float is modelled.
mod Defs
pub mod Text
pub mod Exec
unfoldable pub use Defs.*
