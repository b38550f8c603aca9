-- ===== src/Clearing/Twice.antt =====
-- On `settleTrade` and `unfreezeReserved` of services/clearing/main.go, called again.
use lcex.Prelude.{
  ◌≡◌, ◌≢◌, sym, ◌∙◌, ap, ℕ, ◌≤◌, true, false, [], some, arith, length, Result, ok, err,
  Result-cases, inl, inr, Bool-cases, ◌⊎◌,
}
use lcex.Prelude.Int.{ℤ, pos}
use lcex.Prelude.Word.{int64}
use lcex.Prelude.Text.{Text, text_eq}
use lcex.Db.{Db, Err, OrderRow, already_processed, reach, ◌>>◌}
use lcex.Db.Keys.{eq_ℤ}
use lcex.Db.Statements.{has_journal}
use lcex.Db.Inversion.{>>=-eq-err}
use lcex.Db.Orders.{find_order, select_order, read_order, consume_reserved, reduce_reserved}
use lcex.Ledger.{check_balanced, post, post_tx, with_tx}
use lcex.Ledger.Atomic.{with_tx_err, with_tx_ok, reach_healthy}
use lcex.Ledger.Invariant.{post_ok}
use lcex.Ledger.Idempotent.{post_again, post_once}
use lcex.Ledger.Refused.{post_already, post_tx_already, with_tx_already}
use lcex.Markets.{Config, Market, get}
use lcex.Events.{Trade}
use lcex.Settlement.{Settlement, settlement}
use lcex.Clearing.{
  trade_key, final_key, load_order, settle_body, settle_taker, settle_rows, settle_posted,
  settle_with, settle_trade, release, release_order, unfreeze_row, unfreeze_reserved,
  skip_processed,
}
use lcex.Clearing.Settle.{settle_body_ok, load_order_ok}
use lcex.Clearing.Books.{select_order_row}
use lcex.Clearing.Consume.{unfreeze_reserved_orders}
use lcex.Clearing.Replay.{IsDone, IsDone-same, IsDone-of_Settled, settle_with_again}

load_order_other : (id : ℕ) (d d' : Db) → load_order id d ≢ (err already_processed, d')
unfolding load_order
load_order_other id d d' h = ground arith

consume_reserved_other :
    (amount id : ℤ) (d d' : Db) → consume_reserved amount id d ≢ (err already_processed, d')
unfolding consume_reserved reduce_reserved reach
consume_reserved_other amount id d d' h = ground arith

settle_posted_already :
    (t : Trade) (s : Settlement) (d d' : Db)
    → settle_posted t s d ≡ (err already_processed, d')
    → (2 ≤ length s.moves)
      × (check_balanced s.moves ≡ ok tt)
      × (has_journal (trade_key t) d.journals ≡ true)
unfolding settle_posted
settle_posted_already t s d d' h =
    let taker = consume_reserved s.taker_consume (int64 t.taker_order_id) in
    let maker = consume_reserved s.maker_consume (int64 t.maker_order_id) in
    elim (>>=-eq-err (post_tx (trade_key t) s.moves) (λ _. taker >> maker) d d' h) [
      | inl e ↦
          let (two, balanced, there, _) = post_tx_already (trade_key t) s.moves d d' e in
          (two, balanced, there)
      | inr (_, d₁, _, h₁) ↦ elim (>>=-eq-err taker (λ _. maker) d₁ d' h₁) [
        | inl e ↦ absurd (consume_reserved_other s.taker_consume (int64 t.taker_order_id) d₁ d' e)
        | inr (_, d₂, _, e) ↦
            absurd (consume_reserved_other s.maker_consume (int64 t.maker_order_id) d₂ d' e)
      ]
    ]

settle_rows_already :
    (t : Trade) (s : Settlement) (maker taker : OrderRow) (d d' : Db)
    → settle_rows t s maker taker d ≡ (err already_processed, d')
    → (text_eq taker.side t.side ≡ true)
      × (text_eq maker.side taker.side ≡ false)
      × (settle_posted t s d ≡ (err already_processed, d'))
unfolding settle_rows
settle_rows_already t s maker taker d d' h = ground arith

-- The body is stopped by the journal only.
pub settle_body_already :
    (t : Trade) (s : Settlement) (d d' : Db)
    → settle_body t s d ≡ (err already_processed, d')
    → IsDone t s d
unfolding settle_body settle_taker
settle_body_already t s d d' h =
    elim (>>=-eq-err (load_order t.maker_order_id) (settle_taker t s) d d' h) [
      | inl e ↦ absurd (load_order_other t.maker_order_id d d' e)
      | inr (maker, d₁, found, h₁) ↦
          elim (>>=-eq-err (load_order t.taker_order_id) (settle_rows t s maker) d₁ d' h₁) [
            | inl e ↦ absurd (load_order_other t.taker_order_id d₁ d' e)
            | inr (taker, d₂, found', h₂) ↦
                let (maker_row, e) = load_order_ok t.maker_order_id d d₁ maker found in
                let (taker_row, e') = load_order_ok t.taker_order_id d₁ d₂ taker found' in
                let (side, opposite, last) = settle_rows_already t s maker taker d₂ d' h₂ in
                let (two, balanced, there) = settle_posted_already t s d₂ d' last in
                record {
                  maker = maker;
                  taker = taker;
                  maker_row = maker_row;
                  taker_row = rw (ap (λ (x : Db). x.orders) e) at taker_row;
                  taker_side = side;
                  maker_side = opposite;
                  two = two;
                  balanced = balanced;
                  there =
                      rw (ap (λ (x : Db). x.journals) e', ap (λ (x : Db). x.journals) e) at there;
                }
          ]
    ]

pub skip_processed_ok :
    (r : Result Err (Unit {0}))
    → skip_processed r ≡ ok tt
    → (r ≡ ok tt) ⊎ (r ≡ err already_processed)
skip_processed_ok r h = ground arith

pub select_order_healthy :
    (id : ℤ) (d : Db) (o : OrderRow)
    → d.faults ≡ []
    → find_order id d.orders ≡ some o
    → select_order id d ≡ (ok o, d)
unfolding select_order read_order
select_order_healthy id d o h e = ground (arith, reach_healthy d h)

settle_with-IsDone :
    (t : Trade) (s : Settlement) (d d' : Db) → settle_with t s d ≡ (ok tt, d') → IsDone t s d'
unfolding settle_with
settle_with-IsDone t s d d' h =
    let end_ : (with_tx (settle_body t s) d).1 ≡ d' =
      ap (λ (x : Result Err (Unit {0}) × Db). x.1) h in
    let start = (reach d).1 in
    let body = settle_body t s start in
    elim (skip_processed_ok (with_tx (settle_body t s) d).0
      (ap (λ (x : Result Err (Unit {0}) × Db). x.0) h)) [
        | inl e ↦
            let (opened, ran, closed) = with_tx_ok (settle_body t s) d d' tt (ground arith) in
            let settled = settle_body_ok t s start body.1 (ground arith) in
            IsDone-same t s body.1 d' (ap (λ (x : Db). x.orders) closed)
              (ap (λ (x : Db). x.journals) closed) (IsDone-of_Settled t s start body.1 settled)
        | inr e ↦
            let (opened, raised) = with_tx_already (settle_body t s) d d' (ground arith) in
            let same = with_tx_err (settle_body t s) d d' already_processed (ground arith) in
            let there = settle_body_already t s start body.1 (ground arith) in
            IsDone-same t s start d' (ground (arith, same, opened)) (ground (arith, same, opened))
              there
      ]

pub settle_trade_with :
    (cfg : Config) (symbol : Text) (t : Trade) (d d' : Db)
    → settle_trade cfg symbol t d ≡ (ok tt, d')
    → (m : Market) × (s : Settlement) × (get cfg symbol ≡ ok m)
      × (settlement m t ≡ ok s)
      × (settle_with t s d ≡ (ok tt, d'))
      × ((x : Db) → settle_trade cfg symbol t x ≡ settle_with t s x)
unfolding settle_trade
settle_trade_with cfg symbol t d d' h = elim (Result-cases (get cfg symbol)) [
  | inr (e, q) ↦ absurd (ground arith)
  | inl (m, q) ↦ elim (Result-cases (settlement m t)) [
    | inr (e, p) ↦ absurd (ground arith)
    | inl (s, p) ↦ (m, s, q, p, ground arith, λ x. ground arith)
  ]
]

-- A trade that `settleTrade` has dealt with, now or before, is settled in the database: its journal is
-- there, and delivered again over a healthy connection it succeeds and changes nothing.
pub settle_trade_twice :
    (cfg : Config) (symbol : Text) (t : Trade) (d d' : Db)
    → settle_trade cfg symbol t d ≡ (ok tt, d')
    → (has_journal (trade_key t) d'.journals ≡ true)
      × (d'.faults ≡ [] → settle_trade cfg symbol t d' ≡ (ok tt, d'))
settle_trade_twice cfg symbol t d d' h =
    let (_, s, _, _, first, again) = settle_trade_with cfg symbol t d d' h in
    let settled = settle_with-IsDone t s d d' first in
    (settled.there, λ healthy. again d' ∙ settle_with_again t s d' healthy settled)

release_order_ok :
    (id : ℕ) (o : OrderRow) (m : Market) (d d' : Db)
    → release_order id o m d ≡ (ok tt, d')
    → (2 ≤ length (release o m))
      × (check_balanced (release o m) ≡ ok tt)
      × (has_journal (final_key id) d'.journals ≡ true)
unfolding release_order
release_order_ok id o m d d' h =
    let k = final_key id in
    let ms = release o m in
    elim (skip_processed_ok (post k ms d).0 (ap (λ (x : Result Err (Unit {0}) × Db). x.0) h)) [
      | inl e ↦
          let (start, end_, opened, j, closed) = post_ok k ms d d' (ground arith) in
          (j.two, j.balanced, (post_once k ms d d' (ground arith)).1)
      | inr e ↦
          let (two, balanced, there, same) = post_already k ms d d' (ground arith) in
          (two, balanced, rw (ap (λ (x : Db). x.journals) same) there)
    ]

release_order_again :
    (id : ℕ) (o : OrderRow) (m : Market) (d : Db)
    → d.faults ≡ []
    → (2 ≤ length (release o m))
      × (check_balanced (release o m) ≡ ok tt)
      × (has_journal (final_key id) d.journals ≡ true)
    → release_order id o m d ≡ (ok tt, d)
unfolding release_order
release_order_again id o m d healthy (two, balanced, there) =
    ground (arith, post_again (final_key id) (release o m) d healthy two balanced there)

unfreeze_row_twice :
    (cfg : Config) (id : ℕ) (o : OrderRow) (d d' : Db)
    → unfreeze_row cfg id o d ≡ (ok tt, d')
    → d'.faults ≡ []
    → unfreeze_row cfg id o d' ≡ (ok tt, d')
unfolding unfreeze_row
unfreeze_row_twice cfg id o d d' h healthy = elim (Bool-cases (eq_ℤ o.reserved (pos 0))) [
  | inl e ↦ ground arith
  | inr e ↦ elim (Result-cases (get cfg o.symbol)) [
    | inl (m, q) ↦
        let first : release_order id o m d ≡ (ok tt, d') = ground arith in
        let again = release_order_again id o m d' healthy (release_order_ok id o m d d' first) in
        ground arith
    | inr (e', q) ↦ absurd (ground arith)
  ]
]

-- An order that `unfreezeReserved` has dealt with, now or before, is released once: a second call over
-- a healthy connection succeeds and changes nothing.
pub unfreeze_reserved_twice :
    (cfg : Config) (id : ℕ) (d d' : Db)
    → unfreeze_reserved cfg id d ≡ (ok tt, d')
    → d'.faults ≡ []
    → unfreeze_reserved cfg id d' ≡ (ok tt, d')
unfolding unfreeze_reserved
unfreeze_reserved_twice cfg id d d' h healthy =
    let d₁ = (select_order (int64 id) d).1 in
    elim (Result-cases (select_order (int64 id) d).0) [
      | inl (o, e) ↦
          let row = select_order_row (int64 id) d d₁ o (ground arith) in
          let first : unfreeze_row cfg id o d₁ ≡ (ok tt, d') = ground arith in
          let second = unfreeze_row_twice cfg id o d₁ d' first healthy in
          let orders : d'.orders ≡ d.orders =
            ap (λ (x : Result Err (Unit {0}) × Db). x.1.orders) (sym h)
            ∙ unfreeze_reserved_orders cfg id d in
          let read = select_order_healthy (int64 id) d' o healthy (rw orders row) in ground arith
      | inr (e, q) ↦ absurd (ground arith)
    ]
