-- ===== src/Wallet/Kept.antt =====
-- On the handlers of services/wallet/api.go that change the database: the books, and the deposits and
-- withdrawals that the reconciliation counts.
use lcex.Prelude.{List, [], ◌∷◌, All}
use lcex.Prelude.Int.{ℤ}
use lcex.Prelude.Text.{Text}
use lcex.Chains.{ChainConfig}
use lcex.Db.{Db}
use lcex.Wallet.Books.{IsWallet}
use lcex.Wallet.Reports.{chain_deposit-IsWallet}
use lcex.Wallet.Serve.{
  Request, ask_address, credit_admin, report_deposit, ask_withdrawal, confirm_withdrawal, serve,
  serve_all,
}
use lcex.Wallet.Credits.{ask_address-IsWallet, credit_admin-IsWallet}
use lcex.Wallet.Payouts.{IsSmallWithdrawal, ask_withdrawal-IsWallet, confirm_withdrawal-IsWallet}

-- The withdrawals among the requests are small.
abbrev pub IsSmallRequest : ChainConfig → Request → Type 0
IsSmallRequest cfg (ask_withdrawal risk header body nanos now) = IsSmallWithdrawal cfg body
IsSmallRequest cfg _ = Unit

module _ (derive : ℤ → Text → Text → Text) (cfg : ChainConfig) where
  serve-IsWallet :
      (r : Request) (d : Db) → IsSmallRequest cfg r → IsWallet d → IsWallet (serve derive cfg r d).1
  unfolding serve
  serve-IsWallet (ask_address header currency network) d small h =
      ask_address-IsWallet derive cfg header currency network d h
  serve-IsWallet (credit_admin body) d small h = credit_admin-IsWallet body d h
  serve-IsWallet (report_deposit body) d small h = chain_deposit-IsWallet cfg body d h
  serve-IsWallet (ask_withdrawal risk header body nanos now) d small h =
      ask_withdrawal-IsWallet risk cfg header body nanos now d small h
  serve-IsWallet (confirm_withdrawal path txid) d small h =
      confirm_withdrawal-IsWallet path txid d h

  -- Whatever requests the wallet service is given, in whatever order and how often, whatever the risk
  -- service answers and whichever statement fails, if the amount and the fee of every withdrawal add up to
  -- less than 2 ^ 63: it keeps the books (balances reconciled with the entries, none negative, assets equal
  -- to claims, one row for each account), every credited deposit has the journal of its output, every
  -- withdrawal has the journal that pays it, and no two deposits have the same id.
  pub serve_all-IsWallet :
      (rs : List Request) (d : Db)
      → All (IsSmallRequest cfg) rs
      → IsWallet d
      → IsWallet (serve_all derive cfg rs d)
  unfolding serve_all
  serve_all-IsWallet [] d small h = h
  serve_all-IsWallet (r ∷ rs) d small h =
      serve_all-IsWallet rs (serve derive cfg r d).1 small.1 (serve-IsWallet r d small.0 h)
