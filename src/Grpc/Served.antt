-- ===== src/Grpc/Served.antt =====
-- The handlers with telemetry, by what the repository did.
use mathlib.Core.Path.{subst}
use choreography_saga_demo.Base.{ℕ, String, ◌≡◌, sym, List, none, arith, ap, ◌∙◌}
use choreography_saga_demo.Base.Outcome.{Proc}
use choreography_saga_demo.Domain.{to_string}
use choreography_saga_demo.Repository.{ReserveOutcome, ReleaseOutcome, Repository}
use choreography_saga_demo.Json.{Json}
use choreography_saga_demo.Envelope.{Entropy}
use choreography_saga_demo.Obs.Log.{record_reserve}
use choreography_saga_demo.Obs.Spans.{Spans, running, find_scope, starts}
use choreography_saga_demo.Obs.Host.{Host, Moment, with_span, then_act, spanned}
use choreography_saga_demo.Obs.Handled.{
  call_and_log-repo, Handled, IsHandled, call_and_log, call_and_log-IsHandled,
}
use choreography_saga_demo.App.{
  build_reserve_event, build_release_event, result_of, consumer_release,
}
use choreography_saga_demo.App.Logs.{
  inventory_app, reserve_line, release_line, reserve_stock_logs, release_stock_logs,
}
use choreography_saga_demo.Grpc.{
  ReleaseStockResponse, Tracing, ReserveStockRequest, ReserveStockResponse, ReleaseStockRequest,
  incoming_traceparent, to_proto,
}
use choreography_saga_demo.Grpc.Handlers.{serve_reserve_stock, serve_release_stock}

module _ {J S : Type 0} (lib : Json J) (entropy : Entropy) (repo : Repository S) (tracing : Tracing)
    (md : List (String × String)) where
  abbrev pub reserve_call : ReserveStockRequest → Proc S ReserveOutcome
  reserve_call request =
      repo.reserve request.saga_id request.idempotency_key request.sku request.quantity (
        build_reserve_event lib entropy request.saga_id request.sku request.quantity
          (tracing.within (incoming_traceparent tracing md)))

  abbrev pub release_call : ReleaseStockRequest → Proc S ReleaseOutcome
  release_call request =
      repo.release request.saga_id request.reservation_id request.idempotency_key consumer_release (
        build_release_event lib entropy request.saga_id request.reservation_id
          (tracing.within (incoming_traceparent tracing md)))

abbrev pub reserve_response : ReserveStockRequest → ReserveOutcome → ReserveStockResponse
reserve_response request o = record {
  status = to_proto o.status;
  reservation_id = o.reservation_id;
  message = (result_of request.sku o).message;
}

module _ {J S R : Type 0} (lib : Json J) (entropy : Entropy) (repo : Repository S) (at : Moment)
    (v : ℕ) (tracing : Tracing) (md : List (String × String)) (h : Host S J R) where
  pub serve_reserve_stock-calls :
      (request : ReserveStockRequest)
      → serve_reserve_stock (inventory_app lib repo) entropy at v tracing md request h
        ≡ with_span v "ReserveStock"
            (incoming_traceparent tracing md)
            (call_and_log lib at
              (reserve_call lib entropy repo tracing md request)
              (reserve_line lib request.saga_id request.sku)
              (reserve_response request)
              (λ o. record_reserve (to_string o.status)))
            h
  unfolding serve_reserve_stock reserve_stock_logs result_of
  serve_reserve_stock-calls request = ground arith

  pub serve_release_stock-calls :
      (request : ReleaseStockRequest)
      → serve_release_stock (inventory_app lib repo) entropy at v tracing md request h
        ≡ with_span v "ReleaseStock"
            (incoming_traceparent tracing md)
            (call_and_log lib at
              (release_call lib entropy repo tracing md request)
              (release_line lib request.saga_id)
              (λ o. record { released = o.released })
              (λ o t. t))
            h
  unfolding serve_release_stock release_stock_logs
  serve_release_stock-calls request = ground arith

  pub serve_reserve_stock-repo :
      (request : ReserveStockRequest)
      → (serve_reserve_stock (inventory_app lib repo) entropy at v tracing md request h).1.repo
        ≡ (reserve_call lib entropy repo tracing md request h.repo).1
  serve_reserve_stock-repo request =
      ap (λ x. x.1.repo) (serve_reserve_stock-calls request)
      ∙ call_and_log-repo {R = R} lib at (reserve_call lib entropy repo tracing md request)
          (reserve_line lib request.saga_id request.sku) (reserve_response request)
          (λ o. record_reserve (to_string o.status))
          (record h {
            spans = then_act (starts v "ReserveStock" (incoming_traceparent tracing md)) h.spans;
          })

  pub serve_release_stock-repo :
      (request : ReleaseStockRequest)
      → (serve_release_stock (inventory_app lib repo) entropy at v tracing md request h).1.repo
        ≡ (release_call lib entropy repo tracing md request h.repo).1
  serve_release_stock-repo request =
      ap (λ x. x.1.repo) (serve_release_stock-calls request)
      ∙ call_and_log-repo {R = R} {A = ReleaseStockResponse} lib at
          (release_call lib entropy repo tracing md request) (release_line lib request.saga_id)
          (λ o. record { released = o.released }) (λ o t. t)
          (record h {
            spans = then_act (starts v "ReleaseStock" (incoming_traceparent tracing md)) h.spans;
          })

  -- A call of ReserveStock whose variable `span` is not alive yet. The repository is left as the one
  -- call of `reserve` with the request's fields leaves it. If there is a tracer, one span more has been
  -- started, by the name ReserveStock and with the request's trace as its parent, and has ended. Where
  -- the repository throws, the handler throws the same, writes no line and counts nothing. Where it
  -- returns an outcome, one line is written with the saga, the SKU and the outcome, one reservation is
  -- counted under the outcome's status, and the response has the outcome's status and reservation id;
  -- but if the JSON library cannot write the line, the handler throws what it threw, and counts nothing.
  pub serve_reserve_stock-IsHandled :
      (s : Spans) (request : ReserveStockRequest)
      → h.spans ≡ running s
      → find_scope v s.scopes ≡ none
      → let call : Proc S ReserveOutcome = reserve_call lib entropy repo tracing md request in
        let (r, h') =
          serve_reserve_stock (inventory_app lib repo) entropy at v tracing md request h in
        (h'.repo ≡ (call h.repo).1)
        × (h'.spans ≡ running (spanned "ReserveStock" (incoming_traceparent tracing md) s))
        × Handled lib at h.telemetry
            (call h.repo).0
            (reserve_line lib request.saga_id request.sku)
            (reserve_response request)
            (λ o. record_reserve (to_string o.status))
            r
            h'.telemetry
  serve_reserve_stock-IsHandled s request up new =
      subst
        (IsHandled lib at (reserve_call lib entropy repo tracing md request)
          (reserve_line lib request.saga_id request.sku) (reserve_response request)
          (λ o. record_reserve (to_string o.status)) v "ReserveStock"
          (incoming_traceparent tracing md) h s up new)
        (sym (serve_reserve_stock-calls request))
        (call_and_log-IsHandled lib at (reserve_call lib entropy repo tracing md request)
          (reserve_line lib request.saga_id request.sku) (reserve_response request)
          (λ o. record_reserve (to_string o.status)) v "ReserveStock"
          (incoming_traceparent tracing md) h s up new)

  -- The same of ReleaseStock, which counts nothing.
  pub serve_release_stock-IsHandled :
      (s : Spans) (request : ReleaseStockRequest)
      → h.spans ≡ running s
      → find_scope v s.scopes ≡ none
      → let call : Proc S ReleaseOutcome = release_call lib entropy repo tracing md request in
        let (r, h') =
          serve_release_stock (inventory_app lib repo) entropy at v tracing md request h in
        (h'.repo ≡ (call h.repo).1)
        × (h'.spans ≡ running (spanned "ReleaseStock" (incoming_traceparent tracing md) s))
        × Handled lib at h.telemetry
            (call h.repo).0
            (release_line lib request.saga_id)
            (λ o. record { released = o.released })
            (λ o t. t)
            r
            h'.telemetry
  serve_release_stock-IsHandled s request up new =
      subst
        (IsHandled lib at (release_call lib entropy repo tracing md request)
          (release_line lib request.saga_id) (λ o. record { released = o.released }) (λ o t. t) v
          "ReleaseStock" (incoming_traceparent tracing md) h s up new)
        (sym (serve_release_stock-calls request))
        (call_and_log-IsHandled lib at (release_call lib entropy repo tracing md request)
          (release_line lib request.saga_id) (λ o. record { released = o.released }) (λ o t. t) v
          "ReleaseStock" (incoming_traceparent tracing md) h s up new)
