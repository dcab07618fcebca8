-- ===== src/Lib.antt =====
-- Verification of the FairCoin bridge, a service that moves FAIR between its own chain and the
-- WFAIR token on Base. A payment to one of the bridge's FairCoin addresses is minted as WFAIR, and
-- a BridgeBurn of WFAIR is paid out as FAIR.
--
-- The parts of services/bridge/src and the files that model them:
--   signer/base.ts                         Mint: `signMint` with its two modes, and its job
--   signer/fair.ts                         Release: `signRelease`, and its job
--   workers/orchestrator.ts                the jobs, in Mint, Release and Buy
--   workers/base-watcher.ts                BaseWatcher: burns become withdrawals and release jobs
--   workers/fair-watcher.ts                FairWatcher: payments become deposits and mint jobs
--   workers/masternode-reward-worker.ts    MasternodeRewards: the pool shared among masternodes
--   workers/buyback-worker.ts              Buyback: USDC swapped, split and burned
--   signer/buy.ts                          Buy: `processBuy`, and its job
--   workers/buy-watcher.ts                 BuyWatcher: orders expire, or their payment is detected
--   api/buy.ts                             BuyApi: quotes open orders; Quotes: the price of one;
--                                          Decimal: the amounts as text
--   api/deposit.ts, api/withdrawal.ts      DepositApi: the deposit intents, and the status routes
--   api/admin.ts, api/health.ts            AdminApi: the token, the triggers, the lists; Health
--   workers/reserves-snapshot.ts           Reserves: custody against supply, and the route of
--                                          api/reserves.ts that reports it
--   hd/buy-payment.ts, hd/derive.ts        Hd: the next index of a payment or deposit address
--   rpc/uniswap.ts                         Uniswap: the pool that the quotes remember, the quoter
--   rpc/fair.ts                            Concurrency: `mapWithConcurrency`;
--                                          FairRpc: `getBlockWithTxs`
--   models, queues.ts                      Models and Store
--   config.ts                              Store: the settings; ConfigChecks: `loadConfig`'s checks
--   the amounts of the workers             Amounts; Doubles: JavaScript's numbers in `satsToFair`
--   the watchers with the signers          Flow: from a payment or a burn to what is sent for it
-- The watchers and the routes write documents and add jobs, the jobs run the signers, and the
-- documents are the only state that a retry has. A definition has the name of the function it
-- models, in snake case; a function with early returns or a switch has one helper for each value
-- that it branches on.
--
-- A handler is a function of the shared store (Effects). Each `await` is one effect at one tick of
-- a clock, and the environment, `Env` of Store, decides for each tick whether the call succeeds,
-- throws before or after it took effect, or is the last thing that a killed process did; it also
-- gives the answers of the chains, of faircoind and of the clock. The theorems hold for every
-- environment, up to the hypotheses that they name. Effects.Hoare has the logic for them: `Ensures`
-- for how a handler may end, `Keeps` for what it keeps, `Returns` where no call fails, and
-- Effects.Throws tells the errors apart. What the service has sent to a chain is a list in the
-- store, the newest first. Calls of one handler are not interleaved with those of another, nor are
-- two requests; a run that ends early and is run again is. The one part whose interleavings are
-- modelled is the worker pool of Concurrency, a step relation in which any worker may move next.
--
-- Amounts are natural numbers, since the source counts in BigInt or in decimal strings; a FAIR
-- float that faircoind reports is held in its 1e-8 units. The float that faircoind is asked to pay
-- is the double that `satsToFair` computes, with its roundings (Doubles); a payment holds it next to
-- the sats that it was made from, and these are what the statements add up. Doubles below 2 ^ -27,
-- which do not occur, and infinities are not modelled. Subtraction stops at 0: the block heights and
-- times that the source subtracts are compared with numbers that are not negative. A difference that
-- may be negative, the one of a reserves snapshot, is an integer. Addresses, hashes and ids are
-- numbers that are only compared. A collection is a list of keyed documents, oldest first.
--
-- The endless loops of the watchers and workers run for a given number of rounds. The loop of the
-- base watcher over its windows runs on the number of blocks that are left as fuel, which is enough because each window has at least one block. The loop of the
-- FairCoin watcher runs once for each block between the cursor and the tip. The digits of a number
-- are written with the number itself and one more as fuel, which is enough because each digit
-- divides it by ten. The exponent of a double is sought with the rounded number as fuel, which is
-- enough because each round doubles the bound.
--
-- Not modelled: routing, the middleware of zod for the shapes of addresses and ids, and rate
-- limits; the elliptic-curve derivation of keys; the reading of the environment into the
-- configuration; the RPC clients but for the functions above; logging, connections, migrations and
-- start-up; the seeding script; and the contract. Event decoding, receipts, address checks and the
-- set of known addresses are answers of the environment.
pub mod Prelude
pub mod Effects
pub mod Models
pub mod Store
pub mod Mint
pub mod Samples
pub mod Doubles
pub mod Amounts
pub mod Decimal
pub mod Quotes
pub mod Concurrency
pub mod FairRpc
pub mod Hd
pub mod Uniswap
pub mod BuyApi
pub mod DepositApi
pub mod Reserves
pub mod AdminApi
pub mod ConfigChecks
pub mod Health
pub mod BaseWatcher
pub mod FairWatcher
pub mod Flow
pub mod MasternodeRewards
pub mod Buyback
pub mod Buy
pub mod BuyWatcher
pub mod Release
