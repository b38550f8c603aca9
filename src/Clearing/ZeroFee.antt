-- ===== src/Clearing/ZeroFee.antt =====
-- On `settleTrade` of services/clearing/main.go, for a trade on which no fee is due.
use lcex.Prelude.{
  ◌≡◌, ◌≢◌, ap, ◌+◌, false, List, [], ◌∷◌, All, arith, Result, ok, Bool-cases, inl, inr,
}
use lcex.Prelude.Int.{pos, parts_of_eq}
use lcex.Prelude.Word.{add64, int64, int64_exact}
use lcex.Prelude.Text.{Text, codes, text_eq}
use lcex.Db.{Db, Err, BizKey, OwnerType, reach}
use lcex.Db.Statements.{has_journal}
use lcex.Ledger.{Move, direction_of, abs64, with_tx}
use lcex.Ledger.Atomic.{with_tx_ok}
use lcex.Ledger.Effect.{Posts}
use lcex.Ledger.Refused.{with_tx_already}
use lcex.Markets.{Config, Market, get}
use lcex.Events.{Trade}
use lcex.Settlement.{Settlement, settlement, taker_buys, taker_sells}
use lcex.Settlement.Amounts.{IsSmall, quote_amount, fee_on, settlement_exact}
use lcex.Clearing.{trade_key, settle_body, settle_with, settle_trade}
use lcex.Clearing.Settle.{Settled, settle_body_ok}
use lcex.Clearing.Twice.{settle_trade_with, settle_body_already, skip_processed_ok}

-- The move changes its account.
abbrev pub IsMoving : Move → Type 0
IsMoving m = m.delta ≢ pos 0

no_amount : (o : OwnerType) → (direction_of o (pos 0)).1 ≡ pos 0
unfolding direction_of abs64
no_amount o = ground arith

pub Posts-IsMoving : (k : BizKey) (ms : List Move) (d d' : Db) → Posts k ms d d' → All IsMoving ms
Posts-IsMoving k [] d d' p = tt
Posts-IsMoving k (m ∷ ms) d d' (d₁, p, ps) =
    ((λ z. omega (arith, p.amount, parts_of_eq (moved_amount z))), Posts-IsMoving k ms d₁ d' ps)
  where
    moved_amount : m.delta ≡ pos 0 → (direction_of m.account.owner_type m.delta).1 ≡ pos 0
    moved_amount z = rw z (no_amount m.account.owner_type)

Settled-fresh :
    (t : Trade) (s : Settlement) (d d' : Db)
    → settle_with t s d ≡ (ok tt, d')
    → has_journal (trade_key t) d.journals ≡ false
    → (start : Db) × (end_ : Db) × Settled t s start end_
unfolding settle_with
Settled-fresh t s d d' h fresh =
    let start = (reach d).1 in
    let body = settle_body t s start in
    elim (skip_processed_ok (with_tx (settle_body t s) d).0
      (ap (λ (x : Result Err (Unit {0}) × Db). x.0) h)) [
        | inl e ↦
            let (opened, ran, closed) = with_tx_ok (settle_body t s) d d' tt (ground arith) in
            (start, body.1, settle_body_ok t s start body.1 (ground arith))
        | inr e ↦
            let (opened, raised) = with_tx_already (settle_body t s) d d' (ground arith) in
            let there = settle_body_already t s start body.1 (ground arith) in
            absurd (ground (arith, there.there, opened))
      ]

no_fee_move :
    (m : Market) (t : Trade) (s : Settlement)
    → IsSmall m t
    → settlement m t ≡ ok s
    → fee_on (quote_amount t) m.taker_rate + fee_on (quote_amount t) m.maker_rate ≡ 0
    → ¬ All IsMoving s.moves
unfolding taker_buys taker_sells
no_fee_move m t s h e free all =
    let nothing : int64
          (add64 (fee_on (quote_amount t) m.taker_rate) (fee_on (quote_amount t) m.maker_rate))
        ≡ pos 0 =
      rw free (int64_exact 0 (omega arith)) in
    elim (Bool-cases (text_eq t.side (codes "bid"))) [
      | inl b ↦ ground (arith, settlement_exact m t h, nothing)
      | inr b ↦ ground (arith, settlement_exact m t h, nothing)
    ]

-- A trade with amounts that are small in its market, which is not in the books yet and on which both
-- fees round down to nothing, is not settled, whatever the balances are: `settleTrade` returns an error.
pub zero_fee_not_settled :
    (cfg : Config) (symbol : Text) (m : Market) (t : Trade) (d : Db)
    → get cfg symbol ≡ ok m
    → IsSmall m t
    → fee_on (quote_amount t) m.taker_rate + fee_on (quote_amount t) m.maker_rate ≡ 0
    → has_journal (trade_key t) d.journals ≡ false
    → (settle_trade cfg symbol t d).0 ≢ ok tt
zero_fee_not_settled cfg symbol m t d q h free fresh settled =
    let d' = (settle_trade cfg symbol t d).1 in
    let (m', s, q', e, first, _) = settle_trade_with cfg symbol t d d' (ground arith) in
    let (start, end_, done) = Settled-fresh t s d d' first fresh in
    let moving =
      Posts-IsMoving (trade_key t) s.moves done.journal.opened done.end_ done.journal.posts in
    no_fee_move m t s h (ground arith) free moving
