-- ===== src/Lib.antt =====
-- LCEX: a model of the exchange's services that move money, and what holds of them.
--
-- The program. Users place and cancel orders at the order service (services/order), which freezes what an
-- order may cost and sends it to the matching engine (matching, in Rust) through Kafka. The engine
-- publishes trades and order updates. The clearing service (services/clearing) settles the trades in
-- the ledger and releases what ended orders still reserve; the order service follows the status of its
-- orders. Every change of a balance goes through the ledger (internal/ledger), a double-entry journal in
-- PostgreSQL (db/migrations), which the services share. The wallet service (services/wallet) books deposits
-- and withdrawals in it, on the networks of a configuration (internal/chains), and asks the risk service
-- (services/risk) before each withdrawal. Beside them the market data service (services/market) follows
-- the engine's events and shows book, trades, candles and ticker, the price index (services/price-index)
-- aggregates outside prices, and the market maker (services/market-maker) quotes around the index.
--
-- The files, and the code that they are about:
--   Prelude     lists, results, integers, words of 64 bits, texts, sorting, and maps with numbers (Table)
--               or texts (Dict) for keys (no code of the repository)
--   Fixed       internal/fixed/fixed.go: parse, format, mul_div, mul_div_ceil
--   Db          db/migrations/000001_ledger_core.up.sql, 000002_orders.up.sql and 000003_wallet.up.sql: the
--               tables, the errors and database actions; Db/Statements, Db/Orders and Db/Wallet have the
--               SQL statements of the services, Db/Store and Db/Inversion lemmas on them
--   Ledger      internal/ledger/ledger.go: post_tx (PostTx), post (Post), with_tx (WithTx),
--               check_balanced (checkBalanced), direction_of (directionOf)
--   Markets     internal/markets/markets.go: load (Load), get (Get)
--   Events      internal/events/events.go: the payloads
--   Request     services/order/api.go and main.go: the checks of handlePlace before the database,
--               parse_user_id (parseUserID), status_for (statusFor)
--   Settlement  services/clearing/main.go: the amounts and the moves of settleTrade
--   Clearing    services/clearing/main.go: settle_trade (settleTrade), unfreeze_reserved
--               (unfreezeReserved), load_order (loadOrder), handle_record (handleRecord), run (the loop)
--   Order       services/order/api.go: handle_place (handlePlace), place, reject_and_unfreeze
--               (rejectAndUnfreeze), handle_cancel (handleCancel), apply_order_update; Follows has
--               sync_all (the loop of runStatusSync)
--   PriceIndex  services/price-index/agg.go: compute_index (computeIndex), median_of (medianOf); Publish is
--               aggregate.go: recompute_and_publish (recomputeAndPublish), on_tick
--   Quotes      services/market-maker/quote.go: build_grid (buildGrid), scale_bps (scaleBps),
--               inventory_skew_bps (inventorySkewBps)
--   MarketData  services/market: of state.go the book (Book: apply_order_update, remove_level, trim), the
--               trades and candles (Tape: apply_trade), the store (Store: apply) and what is shown (Views:
--               depth_json, ticker, recent_trades; Klines: klines, last_candle_locked); Hub and Channels
--               are ws.go, Consumer is consumer.go (handle_record), Handlers is api.go
--   Chains      internal/chains/chains.go: load (Load), find_chain (Chain)
--   Risk        services/risk/main.go: parse_deny (parseDeny), parse_daily (parseDaily), handle_pause,
--               handle_resume, handle_withdraw_check (handleWithdrawCheck)
--   Wallet      services/wallet/api.go: handle_deposit_address, handle_admin_credit, handle_chain_deposit
--               (Deposits), handle_withdraw, handle_withdraw_confirm, risk_code (Withdrawals); Serve has the
--               requests in any order, Day the wallet and the risk service together; Reconcile is
--               services/wallet/reconcile.go (handleReconcile)
--   Samples     a small exchange; Tests applies the theorems to it
--
-- The state. A database is a record of its tables; an action takes it and returns a value or an error
-- with the database behind it. `with_tx` undoes what its function wrote before an error; generated
-- order ids are not taken back. Whether a statement fails for a reason outside the data is part of the
-- state: `faults` lists the outcomes to come, and is arbitrary in every theorem that does not say
-- otherwise; "a healthy connection" means that it is empty. Transactions of other processes do not
-- interleave with the statements of one: each transaction is a step.
--
-- Integers. Amounts are uint64 (numbers below 2 ^ 64, with the wrap-around of `+` and `-` written out) or
-- int64 (integers, with the wrap-around in `wrap64` and in the conversions `int64` and `uint64`). BIGINT
-- columns refuse what leaves int64. A uint64 has at most 20 digits, the width that `format_uint` prints.
-- No definition runs on fuel: all recursion is on lists and texts.
--
-- Maps. The order in which Go goes through a map is the order of the list that stands for it; a theorem
-- about any state is about any such order. Clocks are arguments: milliseconds in MarketData, nanoseconds
-- for the client ids and seconds for the rows in Wallet.
--
-- Not modelled: HTTP, JSON, YAML, the log, configuration by environment variables, Kafka's client (the
-- end of `produceSync` is an input), timestamps but those that the code reads, generated ids of
-- accounts and journals (rows refer to one another by their unique keys), a COMMIT whose acknowledgement
-- is lost (one that fails has rolled back), texts that are not ASCII,
-- the handlers of order and wallet that only list what is there, the custodian
-- (services/wallet/provider.go, a parameter), the polling and the sockets of the market data service
-- (an action that may panic on a closed channel returns an Option), the matching engine (its events
-- are arbitrary inputs), the adapters of the price index, and the loop of the market maker around the
-- functions above.
pub mod Prelude
pub mod Fixed
pub mod Db
pub mod Ledger
pub mod Markets
pub mod Events
pub mod Request
pub mod Settlement
pub mod Clearing
pub mod Order
pub mod PriceIndex
pub mod Quotes
pub mod MarketData
pub mod Chains
pub mod Risk
pub mod Wallet
pub mod Samples
pub mod Tests
