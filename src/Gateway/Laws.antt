-- ===== src/Gateway/Laws.antt =====
-- How often a request is answered.
use abstract_account.Prelude.{ℕ, ◌+◌, ◌≡◌, ◌⊎◌, inl, inr, sym, ap, ◌∙◌}
use abstract_account.Result.{Result, ok, err, panicked, Error}
use abstract_account.Wire.Query.{QueryParamsResponse}
use abstract_account.Gateway.{GatewayOps, answer, serve, pass_on, handle_server, handle_client}

module _ {S Context Header : Type 0} (ops : GatewayOps S Context Header) (answers : S → ℕ) where
  -- The two functions that write a response write one, and neither the server nor the client does.
  pub record WritesOnce : Type 0 where
    pub error_writes :
        (ctx : Context) (e : Error) (s : S) → answers (ops.http_error ctx e s) ≡ answers s + 1
    pub forward_writes :
        (ctx : Context) (r : QueryParamsResponse) (s : S)
        → answers (ops.forward_response_message ctx r s) ≡ answers s + 1
    pub server_keeps : (ctx : Context) (s : S) → answers (ops.server_params ctx s).1 ≡ answers s
    pub client_keeps : (ctx : Context) (s : S) → answers (ops.client_params ctx s).1 ≡ answers s

  answered :
      (ctx : Context) (r : Result QueryParamsResponse) (s s' : S)
      → WritesOnce
      → answer ops ctx r s ≡ (ok tt, s')
      → answers s' ≡ answers s + 1
  answered ctx (ok x) s s' w e = ap (λ q. answers q.1) (sym e) ∙ w.forward_writes ctx x s
  answered ctx (err x) s s' w e = ap (λ q. answers q.1) (sym e) ∙ w.error_writes ctx x s
  answered ctx (panicked p) s s' w e = cc

  served :
      (ctx : Context) (r : Result Context) (s s' : S)
      → WritesOnce
      → serve ops ctx r s ≡ (ok tt, s')
      → answers s' ≡ answers s + 1
  unfolding handle_server
  served ctx (ok rctx) s s' w e = answered _ _ _ s' w e ∙ ap (λ n. n + 1) (w.server_keeps rctx s)
  served ctx (err x) s s' w e = ap (λ q. answers q.1) (sym e) ∙ w.error_writes ctx x s
  served ctx (panicked p) s s' w e = cc

  passed_on :
      (ctx : Context) (r : Result Context) (s s' : S)
      → WritesOnce
      → pass_on ops ctx r s ≡ (ok tt, s')
      → answers s' ≡ answers s + 1
  unfolding handle_client
  passed_on ctx (ok rctx) s s' w e = answered _ _ _ s' w e ∙ ap (λ n. n + 1) (w.client_keeps rctx s)
  passed_on ctx (err x) s s' w e = ap (λ q. answers q.1) (sym e) ∙ w.error_writes ctx x s
  passed_on ctx (panicked p) s s' w e = cc

  -- Whichever handler is registered, a request whose handler returns has been answered exactly once,
  -- if the functions that write a response write one, and the server and the client none.
  pub handlers_answer_once :
      (ctx : Context) (s s' : S)
      → WritesOnce
      → (handle_server ops ctx s ≡ (ok tt, s')) ⊎ (handle_client ops ctx s ≡ (ok tt, s'))
      → answers s' ≡ answers s + 1
  unfolding handle_server handle_client
  handlers_answer_once ctx s s' w (inl e) = served _ _ s s' w e
  handlers_answer_once ctx s s' w (inr e) = passed_on ctx _ s s' w e
