-- ===== src/Lib.antt =====
-- yearn-prices serves and repairs daily token prices. A Worker answers requests from the price
-- table, and scripts fill that table: they take closed days without a price from a durable repair
-- queue, find the block at the end of the day on the token's chain, ask price sources in turn,
-- derive prices on chain where no source has one, and store what they find.
--
-- The files and the code that they model (paths from the repository's root):
--   Common       shared helpers: Boolean tests on the native numbers, lists, options, equality as
--                an interface, integers, ordered maps (JavaScript's Map), a stable sort
--   Http         src/http/errors.ts: ApiError's codes, and a result type for functions that throw
--   Utils        src/utils: Time (UTC day ends), Collections (chunk), Chains (token keys),
--                Validation (parseSpotCoins, parseBatchCoins, parseRangeCoins); Text,
--                Number and Json are the values of JavaScript that the code inspects
--   Db           src/db/repair-queue.ts: Prices (stored rows and rejections), RepairQueue (targets
--                and retry policy), Statements (enqueueRepairTargets), Leases (claimRepairQueue,
--                settleRepairSuccess, settleRepairFailure, releaseRepairLease), Workers (any
--                interleaving of these as a step relation); src/db/queries.ts: PriceStore
--                (insertTokenPrices, finalizeTokenPrices, insertProvisionalTokenPrices), PriceReads
--                (getExactHistoricalPrice, getBatchHistoricalPrices)
--   Clients      src/clients/rpc.ts: CappedMap (setCapped), BlockSearch (estimateBlockByTimestamp);
--                src/clients/http-client.ts: RateLimiter (the limiters and parseRetryAfter),
--                HttpClient (fetchJsonWithRetry)
--   Registries   src/registries/source-registry.ts: the constructor and resolveSkipping
--   Backfill     src/backfill/matcher.ts: matchChartObservation, windowEligibleObservations;
--                src/backfill/ranges.ts: groupContiguousRanges; src/backfill/finalize.ts with
--                priced-keys.ts and inventory.ts: Finalize (finalizeBackfillTargets);
--                src/backfill/manifest.ts: Manifest (parseManifest)
--   Cache        src/cache/headers.ts: cacheControlForHistorical, cacheControlForBatch,
--                cacheControlForRange
--   Sources      src/sources/chainlink/historical.ts: readFeed, getHistoricalPrice;
--                src/sources/defillama/match.ts: matchPricesToRequests, buildDefiLlamaWrites;
--                src/sources/onchain/engine.ts: RecursivePriceEngine, with types.ts and errors.ts;
--                src/sources/onchain/read-budget.ts: createReadBudget
--   Routes       src/routes/historical/read-through.ts: ReadThrough (readThrough, knownCurveLps)
--   Tests        each property at concrete input
--
-- How the parts meet: Chains and Time normalise what the queue stores. A registry asks its sources
-- in order; the on-chain engine asks the market (a registry without the on-chain source) for the
-- tokens below the first, and refuses a path from a quarantined observation of Db.Prices. The queue
-- closes a row only where an accepted, finalized price is stored. The read through asks its upstreams
-- for what the price reads left missing, and stores what it serves by the writers of PriceStore. The
-- backfill asks PriceReads which targets are priced, and inserts by the conflict clause of PriceStore.
--
-- Names are the source's in lower case with underscores. State is passed explicitly: a table is a
-- list of rows, a Map an association list, a class its record of fields. A thrown error is a
-- value. Times are seconds (milliseconds in the rate limiter) and are native natural numbers.
--
-- Fuel: chunk, the days of a range and the block search recurse on fuel. A chunk takes a round for
-- each item and one more; the days take a round for each day and one more; the search takes the
-- newest block's number and three, since each probe narrows the bounds. Where a size of zero makes
-- chunk run for ever, a read of the backfill gives none, and its batch is `endless`, which is not an
-- error that is thrown. The loop that waits for a turn has no fuel: Waiting takes its rounds, and
-- those of the callers that share the limiter, as a step relation.
--
-- Parameters: viem's getAddress (checksum), Date.parse, the chain client's getBlock, the floating
-- point interpolation (scaled), fetchPrice, adapters and the market resolver, the upstreams of the
-- read through and its guard, the driver's text of a number, the collation of texts, the check of
-- plausibility and what comes of each attempt at a lock, and JSON.parse.
--
-- Not modelled: SQL text and its batching, Postgres's own locking (a statement is one step), abort
-- signals, searches and resolutions that run at the same time in one process, floating point
-- arithmetic on prices, the handlers of the routes, the caches at the edge, the adapters' contract
-- reads and the scripts.
mod Common
mod Tests
pub mod Http
pub mod Utils
pub mod Db
pub mod Clients
pub mod Sources
pub mod Backfill
pub mod Cache
pub mod Registries
pub mod Routes
