-- ===== src/Gateway.antt =====
-- x/abstractaccount/types/query.pb.gw.go: the HTTP route of the query `Params`, and the handlers that
-- answer it.
pub mod Laws
use abstract_account.Prelude.{ℕ, Bytes}
use abstract_account.Result.{Result, ok, err, panicked, Error}
use abstract_account.Exec.{Exec, modify}
use abstract_account.Wire.Query.{QueryParamsResponse}

-- `runtime.ServerMetadata`
pub record ServerMetadata (Header : Type 0) : Type 0 where
  pub header_md : Header
  pub trailer_md : Header

-- What the handlers take from the gateway's runtime and from gRPC. `S` is the exchange: the writer
-- of the response, and what the server has put on its stream. A request to the server has no fields.
-- The client's metadata comes back beside its result.
pub record GatewayOps (S Context Header : Type 0) : Type 0 where
  pub no_header : Header
  pub join : Header → Header → Header
  pub stream : S → ServerMetadata Header
  pub new_context_with_server_transport_stream : Context → Context
  pub annotate_incoming_context : Context → Result Context
  pub annotate_context : Context → Result Context
  pub new_server_metadata_context : Context → ServerMetadata Header → Context
  pub http_error : Context → Error → S → S
  pub forward_response_message : Context → QueryParamsResponse → S → S
  pub client_params : Context → S → (Result QueryParamsResponse × ServerMetadata Header) × S
  pub server_params : Context → Exec S QueryParamsResponse

module _ {S Context Header : Type 0} (ops : GatewayOps S Context Header) where
  -- `request_Query_Params_0`
  unfoldable pub request_query_params :
      Context → S → (Result QueryParamsResponse × ServerMetadata Header) × S
  request_query_params ctx s = ops.client_params ctx s

  abbrev no_metadata : ServerMetadata Header
  no_metadata = record { header_md = ops.no_header; trailer_md = ops.no_header }

  abbrev without_metadata :
      Result QueryParamsResponse × S → (Result QueryParamsResponse × ServerMetadata Header) × S
  without_metadata (r, s) = ((r, no_metadata), s)

  -- `local_request_Query_Params_0`
  unfoldable pub local_request_query_params :
      Context → S → (Result QueryParamsResponse × ServerMetadata Header) × S
  local_request_query_params ctx s = without_metadata (ops.server_params ctx s)

  -- The response, or the error.
  abbrev pub answer : Context → Result QueryParamsResponse → Exec S (Unit {0})
  answer ctx (ok resp) s = modify (ops.forward_response_message ctx resp) s
  answer ctx (err e) s = modify (ops.http_error ctx e) s
  answer ctx (panicked p) s = (panicked p, s)

  abbrev joined : ServerMetadata Header → ServerMetadata Header → ServerMetadata Header
  joined md stream = record {
    header_md = ops.join md.header_md stream.header_md;
    trailer_md = ops.join md.trailer_md stream.trailer_md;
  }

  abbrev answer_local :
      Context → (Result QueryParamsResponse × ServerMetadata Header) × S → Result (Unit {0}) × S
  answer_local ctx ((r, md), s) =
      answer (ops.new_server_metadata_context ctx (joined md (ops.stream s))) r s

  abbrev serve : Context → Result Context → Exec S (Unit {0})
  serve ctx (ok rctx) s = answer_local ctx (local_request_query_params rctx s)
  serve ctx (err e) s = modify (ops.http_error ctx e) s
  serve ctx (panicked p) s = (panicked p, s)

  -- The handler that `RegisterQueryHandlerServer` registers.
  unfoldable pub handle_server : Context → Exec S (Unit {0})
  unfolding local_request_query_params
  handle_server request_ctx s =
      let ctx = ops.new_context_with_server_transport_stream request_ctx in
      serve ctx (ops.annotate_incoming_context ctx) s

  abbrev answer_remote :
      Context → (Result QueryParamsResponse × ServerMetadata Header) × S → Result (Unit {0}) × S
  answer_remote ctx ((r, md), s) = answer (ops.new_server_metadata_context ctx md) r s

  abbrev pass_on : Context → Result Context → Exec S (Unit {0})
  pass_on ctx (ok rctx) s = answer_remote ctx (request_query_params rctx s)
  pass_on ctx (err e) s = modify (ops.http_error ctx e) s
  pass_on ctx (panicked p) s = (panicked p, s)

  -- The handler that `RegisterQueryHandlerClient` registers.
  unfoldable pub handle_client : Context → Exec S (Unit {0})
  unfolding request_query_params
  handle_client ctx s = pass_on ctx (ops.annotate_context ctx) s

-- What the registration takes from gRPC and from Go. `M` is the process: its routes, connections and
-- goroutines. `handle_get conn` adds the route whose client uses `conn`, and `go_on_done` starts a
-- goroutine that runs its argument when the context is done.
pub record EndpointOps (M Conn : Type 0) : Type 0 where
  pub dial : Exec M Conn
  pub close : Conn → Exec M (Unit {0})
  pub handle_get : Conn → M → M
  pub go_on_done : (M → M) → M → M

module _ {M Conn : Type 0} (ops : EndpointOps M Conn) where
  unfoldable pub register_query_handler_client : Conn → Exec M (Unit {0})
  register_query_handler_client conn = modify (ops.handle_get conn)

  unfoldable pub register_query_handler : Conn → Exec M (Unit {0})
  unfolding register_query_handler_client
  register_query_handler conn = register_query_handler_client conn

  -- An error of `Close` is only logged.
  abbrev closed : Conn → M → M
  closed conn m = (ops.close conn m).1

  -- The deferred function, after the rest has returned.
  abbrev deferred : Conn → Result (Unit {0}) × M → Result (Unit {0}) × M
  deferred conn (ok x, m) = (ok x, ops.go_on_done (closed conn) m)
  deferred conn (err e, m) = (err e, closed conn m)
  deferred conn (panicked p, m) = (panicked p, ops.go_on_done (closed conn) m)

  abbrev dialed : Result Conn × M → Result (Unit {0}) × M
  dialed (ok conn, m) = deferred conn (register_query_handler conn m)
  dialed (err e, m) = (err e, m)
  dialed (panicked p, m) = (panicked p, m)

  unfoldable pub register_query_handler_from_endpoint : Exec M (Unit {0})
  unfolding register_query_handler
  register_query_handler_from_endpoint m = dialed (ops.dial m)
