-- ===== src/Tests/Engines.antt =====
-- An engine that is started and asked to stop, and one that handles a request.
use hft_sys.Common.{◌≢◌, refl, true, none, arith}
use hft_sys.Common.Int.{pos}
use hft_sys.Exchange.{buy}
use hft_sys.Exchange.Messages.{
  ClientRequest, ClientResponse, MarketUpdate, RequestType, ResponseType, UpdateType,
}
use hft_sys.LfQueue
use hft_sys.Engine.{Engine, new_engine, handle_client_request}
use hft_sys.Engine.Answers.{Returns, Answered, handle_client_request-Answered}
use hft_sys.Book.{new_book}
use hft_sys.Pool.Count.{total}
use hft_sys.Engine.Lifetime.{
  Life, Reach, here, next, start, run, request_stop, testing, requested, returned, leaving,
  finished, constructed, stop-never_returns,
}

abbrev asked_to_stop : Life
asked_to_stop = record {
  is_running = true;
  stop_token = true;
  engine = testing;
  stopper = requested;
}

asked_to_stop-Reach : Reach asked_to_stop
unfolding constructed
asked_to_stop-Reach = next (next (next here (start refl)) (run refl)) (request_stop (λ h. cc) refl)

stop-never_returns_example :
    (asked_to_stop.stopper ≢ returned)
    × (asked_to_stop.engine ≢ leaving)
    × (asked_to_stop.engine ≢ finished)
stop-never_returns_example = stop-never_returns asked_to_stop-Reach

abbrev order_request : ClientRequest
order_request = record {
  type = RequestType.new;
  client_id = 1;
  ticker_id = 2;
  order_id = 0;
  side = buy;
  price = pos 10;
  qty = 5;
}

abbrev no_response : ClientResponse
no_response = record {
  type = ResponseType.invalid;
  client_id = 0;
  ticker_id = 0;
  client_order_id = 0;
  market_order_id = 0;
  side = buy;
  price = pos 0;
  qty_exec = 0;
  qty_remain = 0;
}

abbrev no_update : MarketUpdate
no_update = record {
  type = UpdateType.invalid;
  order_id = 0;
  ticker_id = 0;
  side = buy;
  price = pos 0;
  qty = 0;
  priority = 0;
}

-- An engine with books of four blocks.
abbrev fresh : Engine
fresh =
    record (new_engine (LfQueue.new order_request 4) (LfQueue.new no_response 4)
      (LfQueue.new no_update 4)) { books = λ _. new_book 2 4 4 }

handle_client_request-Answered_example :
    Returns
      (Answered RequestType.new order_request fresh)
      (handle_client_request (λ _ _. none) 9 order_request fresh)
unfolding total new_book
handle_client_request-Answered_example =
    handle_client_request-Answered (λ _ _. none) 9 order_request fresh (omega arith)
      (λ _. omega arith)
