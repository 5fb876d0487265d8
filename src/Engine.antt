-- ===== src/Engine.antt =====
-- core/matching_engine/matching_engine.h and matching_engine.cpp: `MatchingEngine`.
pub mod Answers
pub mod Lifetime
pub mod Pipeline
use hft_sys.Common.{
  ℕ, ◌≡◌, Option, none, some, List, [], ◌∷◌, Result, ok, fail, undefined, ltb, if◌then◌else◌,
  update,
}
use hft_sys.Exchange.{max_tickers, max_price_levels, max_order_ids}
use hft_sys.Exchange.Messages.{
  RequestType, new, cancel, ClientRequest, ClientResponse, MarketUpdate, Message,
}
use hft_sys.Exchange.Messages
use hft_sys.LfQueue
use hft_sys.LfQueue.{Queue}
use hft_sys.Book.{Book, M, pure, new_book}
use hft_sys.Book.Handlers.{add_order, cancel_order}

-- `orderBookForTicker_[i]` is `books i`, for `i` below `MAX_TICKERS`.
pub record Engine : Type 0 where
  pub books : ℕ → Book
  pub rx_requests : Queue ClientRequest
  pub tx_responses : Queue ClientResponse
  pub tx_market_updates : Queue MarketUpdate

-- The constructor, on three queues.
unfoldable pub new_engine : Queue ClientRequest → Queue ClientResponse → Queue MarketUpdate → Engine
unfolding new_book
new_engine rx tx updates = record {
  books = λ i. new_book i max_price_levels max_order_ids;
  rx_requests = rx;
  tx_responses = tx;
  tx_market_updates = updates;
}

-- `dispatchClientResponse`: a full queue drops the response.
unfoldable pub dispatch_client_response : ClientResponse → Engine → Engine
dispatch_client_response r e = record e { tx_responses = (LfQueue.push r e.tx_responses).1 }

-- `publishMarketUpdate`: a full queue drops the update.
unfoldable pub publish_market_update : MarketUpdate → Engine → Engine
publish_market_update u e = record e { tx_market_updates = (LfQueue.push u e.tx_market_updates).1 }

-- The calls that a book has made, in order.
unfoldable pub deliver : List Message → Engine → Engine
unfolding dispatch_client_response publish_market_update
deliver [] e = e
deliver (Messages.response r ∷ ms) e = deliver ms (dispatch_client_response r e)
deliver (Messages.update u ∷ ms) e = deliver ms (publish_market_update u e)

-- A method of the book of a ticker. The index is not checked.
unfoldable pub on_book : ℕ → M (Unit {0}) → Engine → Result Engine
unfolding deliver
on_book ticker method e =
    if ltb ticker max_tickers
    then elim (method (record (e.books ticker) { sent = [] })) [
      | fail f ↦ fail f
      | ok (_, b) ↦ ok (deliver b.sent (record e { books = update e.books ticker b }))
    ]
    else fail undefined

-- `handleClientRequest`
unfoldable pub handle_client_request :
    (Book → ℕ → Option ℕ) → ℕ → ClientRequest → Engine → Result Engine
unfolding on_book add_order cancel_order
handle_client_request word_below fuel r e = elim (r.type) [
  | new ↦
      on_book r.ticker_id
        (add_order word_below fuel r.client_id r.order_id r.ticker_id r.side r.price r.qty) e
  | cancel ↦ on_book r.ticker_id (cancel_order r.client_id r.order_id r.ticker_id) e
  | _ ↦ ok e
]

-- One round of the loop of `runMatchingEngine`.
unfoldable pub engine_round : (Book → ℕ → Option ℕ) → ℕ → Engine → Result Engine
unfolding handle_client_request
engine_round word_below fuel e = elim (LfQueue.pop e.rx_requests) [
  | fail f ↦ fail f
  | ok (none, q) ↦ ok e
  | ok (some r, q) ↦ handle_client_request word_below fuel r (record e { rx_requests = q })
]
