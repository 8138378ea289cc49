-- ===== src/Tests.antt =====
-- Each property applied to concrete input.
mod Basics
mod Feeds
mod Prices
mod ReadThroughs
mod Budget
mod Days
mod Finalizations
mod Manifests
mod Blocks
mod Queue
mod Registry
mod Observations
mod Engine
mod Requests
mod Parameters
