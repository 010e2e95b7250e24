-- ===== src/Emitter/Store/Bootstrap.antt =====
-- The two requests of `ch_bootstrap_health_table`.
use krateo_openstack_bluepri.Prelude.{String, Option, none, List, ◌∷◌, Value, ◌+++◌, ◌≡◌, rstrip}
use krateo_openstack_bluepri.Emitter.Config.{Environ}
use krateo_openstack_bluepri.Emitter.Effects.{Request, lines, verifies, request_headers}
use krateo_openstack_bluepri.Emitter.Store.{params, credentials, database_or}

-- A request with these parameters
abbrev pub Asks : Request → String → String → Type 0
Asks r sql db = (r.query ≡ params sql db) × (r.method ≡ "POST")

-- The request that `ch_query` makes of a statement
query_request : Environ → String → String → List Value → Option String → Request
query_request env url sql body database = record {
  method = "POST";
  url = rstrip b'/' url +++ "/?";
  query = params sql (database_or env database);
  headers = request_headers none (("Content-Type", "application/octet-stream") ∷ credentials env);
  body = lines body;
  timeout = 30;
  verified = verifies env (rstrip b'/' url +++ "/?");
}
