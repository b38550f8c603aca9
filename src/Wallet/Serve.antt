-- ===== src/Wallet/Serve.antt =====
-- The requests to the wallet service (services/wallet/api.go), and `routes`: which handler serves which.
use lcex.Prelude.{ℕ, List, [], ◌∷◌, Option}
use lcex.Prelude.Int.{ℤ}
use lcex.Prelude.Text.{Text}
use lcex.Chains.{ChainConfig}
use lcex.Risk.{WithdrawCheck}
use lcex.Db.{Db}
use lcex.Wallet.{Reply}
use lcex.Wallet.Deposits.{
  handle_deposit_address, AdminCreditReq, handle_admin_credit, ChainDepositReq,
  handle_chain_deposit,
}
use lcex.Wallet.Withdrawals.{RiskReply, WithdrawReq, handle_withdraw, handle_withdraw_confirm}

-- A request to the wallet service, with what it finds of the world: the reply of the risk service and
-- the clocks.
pub data Request : Type 0 where
  ask_address : Text → Text → Text → Request
  credit_admin : Option AdminCreditReq → Request
  report_deposit : Option ChainDepositReq → Request
  ask_withdrawal : (WithdrawCheck → RiskReply) → Text → Option WithdrawReq → ℤ → ℕ → Request
  confirm_withdrawal : Text → Text → Request

-- The handlers of `routes` that change the database.
module _ (derive : ℤ → Text → Text → Text) (cfg : ChainConfig) where
  unfoldable pub serve : Request → Db → Reply × Db
  serve (ask_address header currency network) d =
      handle_deposit_address derive cfg header currency network d
  serve (credit_admin body) d = handle_admin_credit body d
  serve (report_deposit body) d = handle_chain_deposit cfg body d
  serve (ask_withdrawal risk header body nanos now) d =
      handle_withdraw risk cfg header body nanos now d
  serve (confirm_withdrawal path txid) d = handle_withdraw_confirm path txid d

  unfoldable pub serve_all : List Request → Db → Db
  serve_all [] d = d
  serve_all (r ∷ rs) d = serve_all rs (serve r d).1
