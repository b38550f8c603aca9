-- ===== src/Tests.antt =====
-- The theorems applied at concrete inputs.
mod Ledger
mod Clearing
mod Order
mod Amounts
mod Quotes
mod MarketData
mod Wallet
