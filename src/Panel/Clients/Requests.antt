-- ===== src/Panel/Clients/Requests.antt =====
-- internal/panel/api_clients.go and api_client_ops.go: the requests of the clients' API and the
-- sweeps of enforcer.go, one after the other.
pub mod Rows
pub mod After
pub mod Followed
use hexplus_v.Base.{ℕ, Bool, Option, none, some, List, [], ◌∷◌}
use hexplus_v.Base.Int.{ℤ}
use hexplus_v.Panel.Rows.{Tables}
use hexplus_v.Panel.Enforcer.{enforce_once}
use hexplus_v.Text.{Text}
use hexplus_v.Panel.Clients.{
  ClientInput, update_client, delete_client, toggle_client, reset_client, extend_client,
}
use hexplus_v.Panel.Clients.Many.{BulkOp, BulkError, bulk}
use hexplus_v.Panel.Clients.Create.{Draws, create_client}

-- A request to one of the routes, with what the handler draws and decodes, or a sweep of the enforcer.
pub data Request : Type 0 where
  create : Draws → Text → Option ClientInput → Request
  update : Text → Option ClientInput → Request
  remove toggle_enabled reset_usage : Text → Request
  extend_by : Text → Option ℤ → Request
  bulk_by : (ℕ → ℕ) → Option BulkOp → List ℕ → Request
  sweep : Request

abbrev pub tables_or : Tables → Option (Tables × List ℕ × List (ℕ × BulkError)) → Tables
tables_or t none = t
tables_or t (some r) = r.0

-- The tables after a request.
unfoldable pub handle : ℕ → Bool → Request → Tables → Tables
unfolding create_client update_client delete_client toggle_client reset_client extend_client bulk
    enforce_once
handle now reload (create d raw body) t = (create_client d reload now raw body t).0
handle now reload (update raw body) t = (update_client reload now raw body t).0
handle now reload (remove raw) t = (delete_client reload raw t).0
handle now reload (toggle_enabled raw) t = (toggle_client reload now raw t).0
handle now reload (reset_usage raw) t = (reset_client now raw t).0
handle now reload (extend_by raw days) t = (extend_client reload now raw days t).0
handle now reload (bulk_by clock op ids) t = tables_or t (bulk now clock op ids t)
handle now reload sweep t = record t { clients = (enforce_once now t.clients).0 }

-- The requests, each with its time and the outcome of its reload.
unfoldable pub handle_all : List (ℕ × Bool × Request) → Tables → Tables
unfolding handle
handle_all [] t = t
handle_all ((now, reload, r) ∷ rs) t = handle_all rs (handle now reload r t)
