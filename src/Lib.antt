-- ===== src/Lib.antt =====
-- PolyQuantLab: the strategy builder, the script generator, the forms and pages of backtests, sweeps and
-- paper trading, the server's bridge to the backend, the API routes and billing, as the TypeScript of
-- web/ has them.
--
-- The program. A user builds a strategy in web/components/StrategyBuilder.tsx: three sections (entry,
-- take profit, stop loss), each a tree of conditions and groups. The page edits the trees, keeps the
-- state and the saved strategies in the browser's storage, reads the trees out in English, submits them
-- as JSON and offers them as a Python script (web/libs/pythonCodegen.ts). The browser talks to the route
-- handlers in web/app/api, which know the user from the session and forward to the Python backend
-- through web/libs/fastapi.ts with a shared secret. The backend reads the sections in
-- backtest/conditions.py. Three other forms start a backtest, a sweep and a paper strategy; the result
-- pages poll the job until it ends, and the page of a paper strategy compares its trades with a
-- backtest. Payments go through Stripe: web/libs/stripe.ts starts a checkout, and the
-- webhook in web/app/api/webhook/stripe/route.ts grants and takes access.
--
-- The files. Common has lists, options, texts and tests that the parts share.
--   Strategy.Params       the tables at the head of StrategyBuilder.tsx (PARAM_SPECS, OP_LABELS)
--   Strategy.Tree         Condition, Group, Node, mutateAt; `Paths`: what an update at a path changes
--   Strategy.Edit         appendChild, removeNode, toggleConnector, patchCond; `Aligned`, `Sound`,
--                         `Effects` and `Leaves` have what they keep and change
--   Strategy.Meaning      the left-to-right reading of a chain; `Chains`: how an edit changes it
--   Strategy.Wire         stripIds, stripGroupIds, serialiseSection; evaluate_section and evaluate_node
--                         of the backend; `Reading`, `Submitted`: what arrives there
--   Strategy.Builder      BuilderState, ensureGroup, hydration, templates and the handlers; `Events`:
--                         sequences of what the user does; `Soundness`, `Invariant`
--   Strategy.Submit       buildStrategySpec, submit, submitAsPaper
--   Strategy.Prefill      the hand-off from the other pages
--   Strategy.Reads        humanCondition, humanChildren, humanNode, humanSection
--   Codegen               leafExpr to sectionExpr (`Expressions`), exprKey (`Keys`), generatePython
--                         (`Script`), the grammar (`Grammar`), the script of a state (`Compiled`)
--   Web                   internalFetch and its callers (`Bridge`), fastapiProxy (`Proxy`), the routes
--                         (`Routes`, `Jobs`, `Keys`), web/libs/api.ts (`Client`); `Attempts`, `Forwarded`, `Gate`,
--                         `Serves`: what they send and answer
--   Billing               web/config.ts (`Plans`), web/libs/stripe.ts and its routes (`Checkout`), the
--                         webhook (`Webhook`); `Grants`, `Own`: what justifies its effects
--   Select                the select box of web/components/QSelect.tsx; `Choices`: what it passes on
--   Forms                 web/components/SweepForm.tsx (`Sweep`), BacktestForm.tsx (`Single`) and
--                         NewPaperStrategyForm.tsx (`Paper`): state, handlers and submit, as steps of
--                         one machine (`Sending`); `Inputs`: their fields; `Replies`: what is shown
--   Poll                  the effect that polls in web/components/BacktestResult.tsx and
--                         SweepResult.tsx, and what the two pages show; `Ends`, `Shows`
--   Grid                  the plateau in SweepResult.tsx (`Peak`, `Plateau`) and the time left
--   Paper                 web/components/PaperStrategyDetail.tsx: the figures (`Gross`, `Totals`), the
--                         drawdown (`Drawdown`, `Largest`), the verdict (`Verdict`), what is loaded
--                         (`Page`); PaperStrategiesList.tsx and SavedBacktestsList.tsx (`Lists`)
--   Markets               web/components/MarketsTable.tsx; `Fresh`: rows and loads in any order
--   Scrubber              the time scrubber of web/components/MarketDetail.tsx; `Book`: the delayed fetch
--   Live                  web/components/LiveTerminal.tsx: fetches, boards, countdown
--   Calibration           the insight of web/components/CalibrationView.tsx; `Widest`
--   Results               the figures in web/components/BacktestResult.tsx; `Curve`: where it ends
--   Account               web/components/ApiKeysClient.tsx; `Created`: how a creation ends
--   Clock                 web/libs/formatDate.ts; `Hours`: the 12-hour clock
--   Export                the CSV of web/components/ExportButtons.tsx, and a strict reader of it
--
-- The model. State is passed on: a handler maps a session to a session. An exception is a value:
-- `throws` for an update at a path, `thrown` for a call of the backend, `failed` for a fetch. Random
-- ids, the time, the session of Supabase, the answers of Stripe and of the network, and functions of the
-- platform (encodeURIComponent, JSON texts) are arguments. Requests that are sent and writes to the
-- database are lists, in the order of the code. A number of the builder is a decimal literal, which the
-- code compares and prints; texts whose characters matter are lists of UTF-16 code units, other texts
-- are strings. All functions are structurally recursive on trees or lists. A numeral is printed on fuel:
-- a number's successor, which has more units than the number has digits. Polling runs on fuel for a
-- number of rounds: with 302 rounds a backtest page (1200 ms between two, 360000 ms in all) has
-- certainly ended, since the timer never fires early. The forms are a step relation: what the user does
-- and what the network answers come in any order. Amounts of money are differences of natural numbers in
-- one unit: the rounding of floating point is not modelled. The fields of a date are arguments.
--
-- Not modelled. The markup of the components, charts, landing and blog pages; the arbitrage pages and the
-- tables and charts of the market pages; what a select box does when its list changes; the value of a
-- single condition on a market snapshot, which is a parameter of both readers of a tree; the rest of the
-- Python code. A Python expression of a condition is an atom of the grammar, whatever its own text is.
mod Common
pub mod Strategy
pub mod Codegen
pub mod Web
pub mod Billing
pub mod Export
pub mod Select
pub mod Poll
pub mod Forms
pub mod Paper
pub mod Grid
pub mod Account
pub mod Clock
pub mod Markets
pub mod Scrubber
pub mod Live
pub mod Results
pub mod Calibration
