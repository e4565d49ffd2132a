-- ===== src/Lib.antt =====
-- Trading-bot-2.0: the safety core of each of its trading systems.
--
-- `engine/` is a small daily trading engine. A cycle loads its durable state (engine/state.py), asks
-- the risk gate whether it may trade (engine/risk.py), turns target weights into orders and executes
-- them (engine/execution.py) on a venue (engine/broker.py). The gate proposes nothing and can refuse
-- everything: a venue takes only the orders that the gate has stamped. Costs (engine/costs.py) and
-- limits (engine/config.py) come from a configuration that is validated once. The shape of an order and
-- the order of submission are engine/orders.py, the exceptions engine/errors.py.
--
-- `mini_prop_os/` is an intraday system around a broker's callbacks. Strategies emit intents
-- (mini_prop_os/core/types.py); the guardrails (mini_prop_os/risk/guardrails.py) approve or reject each,
-- and stop trading on a daily loss; a calendar of releases suppresses entries
-- (mini_prop_os/risk/event_calendar.py); only the order manager (mini_prop_os/execution/oms.py) turns an
-- approved intent into an order, and it keeps orders and positions in step with the broker's reports. The
-- application (mini_prop_os/app.py) joins them, and leaves a marker on disk (mini_prop_os/core/killfile.py)
-- when its kill switch goes on.
--
-- `ftmo-bot/` trades a funded challenge whose rules are a daily and an overall loss limit. One pure module
-- of rules (ftmo-bot/src/ftmo_bot/risk/ftmo_rules.py) serves its backtest and its two live processes, which
-- meet in files and in a terminal: the guard (ftmo-bot/src/ftmo_bot/risk/guard.py) halts and flattens, the
-- runner (ftmo-bot/src/ftmo_bot/execution/runner.py) keeps the book of positions and hears the bars, and its
-- router (ftmo-bot/src/ftmo_bot/execution/order_router.py) is the only way to an order. A replay
-- (ftmo-bot/src/ftmo_bot/backtest/ftmo_sim.py) takes a backtest through the same rules. A ledger
-- (ftmo-bot/src/ftmo_bot/backtest/ledger.py) says which backtests may still be run.
--
-- Files:
--   Base            names that all parts share: comparisons, lists, dicts as association lists,
--                   Python's int (Base/Int) and its float (Base/Float)
--   Engine/Errors   engine/errors.py: a call that raises is `err`
--   Engine/Config   engine/config.py: the records and `validate_config`
--   Engine/Costs    engine/costs.py: `order_cost`, `all_in_fraction`
--   Engine/Orders   engine/orders.py: statuses, `sort_for_submission`, `truncate_to_cap`
--   Engine/State    engine/state.py: the state; Engine/State/Store is `StateStore` with its three files
--   Engine/Risk     engine/risk.py: `pre_trade`, `clamp_weights`, `filter_orders`
--   Engine/Broker   engine/broker.py: the interface as a record over a venue's state; Broker/Paper is
--                   `PaperBroker`
--   Engine/Execution  engine/execution.py: `execute_rebalance` and its helpers, on a state of venue, id
--                   counter, budget and journal that survives an exception (Execution/Monad)
--   Engine/Portfolio  engine/portfolio.py: `compute_orders`, `deviations`, `converged`
--   Engine/Runner   engine/runner.py: `run_cycle`; Runner/Steps has what it computes between its calls
--   MiniProp/Types  mini_prop_os/core/types.py: `OrderIntent`, `Position.apply_fill`, `Fill`
--   MiniProp/Oms    mini_prop_os/execution/oms.py: each command and callback is a function on the record
--                   `Oms`; Oms/Reachable is the relation of their interleavings
--   MiniProp/Guardrails  mini_prop_os/risk/guardrails.py: `validate`, `update_equity`, `flatten_intents`
--   Ftmo/Rules      ftmo-bot/src/ftmo_bot/risk/ftmo_rules.py: `should_halt`, `can_open`, `resolve_baseline`
--   MiniProp/EventCalendar  mini_prop_os/risk/event_calendar.py, on Base/Bisect, the library's bisect_left
--   MiniProp/App    mini_prop_os/app.py: the handlers of `TradingApp`; App/Steps is the relation of their
--                   interleavings. MiniProp/KillFile is core/killfile.py
--   Ftmo/Live       ftmo-bot/src/ftmo_bot/: the live processes on a world of files and a terminal.
--                   Live/Store is execution/state.py, Live/Sizing risk/sizing.py, Live/Guard risk/guard.py,
--                   Live/Router execution/order_router.py; Live/Together is the relation of their
--                   interleavings. Live/Mt5 is execution/mt5_client.py on the package of Live/Package,
--                   Live/Manage and Live/Runner execution/runner.py
--   Ftmo/Simulation ftmo-bot/src/ftmo_bot/backtest/ftmo_sim.py: `simulate_window`, `rolling`, `summarize`
--   Ftmo/Ledger     ftmo-bot/src/ftmo_bot/backtest/ledger.py: `check`, `record`
--
-- Floats. The code's arithmetic is Python's float. The definitions take it as an instance argument
-- (Base/Float), one operation for one operation, in the source's order, so NaN, infinities and rounding
-- are in it. A theorem that needs a law of floats takes it as a named hypothesis: IsOrdered
-- (comparison), IsMonotone (rounding is monotone, what IEEE 754 promises of finite operands) and, for
-- two theorems, IsExact (no rounding). Base/Float/Milli, whole thousandths, is an instance of all three,
-- on which the examples run. `math.floor` raises on NaN and the infinities; here it is a total operation
-- of the parameter.
--
-- Parameters. `Codec` (Engine/State/Store) is the standard library's json and hashlib on whole files, with
-- "loads inverts dumps" as its law IsFaithful. A cycle (Engine/Runner) takes what the frame of prices and
-- the strategy return or raise on its day. A moment (Ftmo/Rules) is what the time zone's library says of
-- a time stamp. IsTraced (Engine/Broker) is what the execution theorems ask of a venue, that it takes the
-- stamped orders in order. IsTraced (Ftmo/Live) is what the live theorems ask of the terminal, that only
-- `market_order` sends an order, and one at most; IsLogged (Ftmo/Live/Mt5/Log) is the documented behaviour
-- of the package below it, that only `order_send` reaches the server. A venue, a disk and a strategy
-- (MiniProp/App) are any functions. A raising call is `raised` of Base/Outcome.
--
-- Fuel and bounds. Three loops are not over a list. The one that sizes a buy down (Engine/Execution/Resize)
-- runs on fuel, the size that it starts from, and each round lowers the size by at least one. The library's
-- bisection (Base/Bisect) runs on the length of its list, which each round lessens. A read of the terminal
-- (Ftmo/Live/Mt5) runs on the tries that are left. Configured counts are natural numbers; validation refuses
-- those below one. A symbol, an order id and a day are natural numbers, only compared. The loops around a
-- poll, a step and a cycle only wait; a theorem about several of their rounds is about every sequence of
-- them.
--
-- Not modelled: reading TOML, the text of messages, writing the journal's file, engine/data.py, and
-- what the list above leaves out of mini_prop_os/ and ftmo-bot/.
-- Strategies, statistics, reports, the backtests' engines, downloads and the connection to the broker of
-- mini_prop_os are numerics and glue.
pub mod Base
pub mod Engine
pub mod Ftmo
pub mod MiniProp
