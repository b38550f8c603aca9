-- ===== src/Order/Freezes.antt =====
-- On the transaction of `place` of services/order/api.go: what it has done when it succeeds.
use lcex.Prelude.{
  ◌≡◌, ap, true, not, [], ◌∷◌, ◌++◌, none, arith, ok, Result-cases, Option-cases, inl, inr,
}
use lcex.Prelude.Int.{ℤ, pos, ◌+ℤ◌, ◌-ℤ◌}
use lcex.Prelude.Word.{IsInt64}
use lcex.Prelude.Text.{Text}
use lcex.Db.{Db, OrderRow, available, frozen, out_of_range, reach, raise_if, ◌>>◌}
use lcex.Db.Inversion.{>>=-eq-ok, reach_ok}
use lcex.Db.Orders.{find_client, insert_order, insert_row, order_checks, price_fits}
use lcex.Ledger.{user_ref, post_tx, with_tx}
use lcex.Db.Store.{balance_of}
use lcex.Clearing.Settle.{Journaled-orders}
use lcex.Ledger.Atomic.{with_tx_ok}
use lcex.Ledger.Effect.{Journaled, post_tx_ok, raise_if_ok}
use lcex.Ledger.Shift.{shifted_balances}
use lcex.Order.{order_key, freeze, freeze_order, place_tx}

-- The row with its id behind the others.
abbrev pub with_id : OrderRow → ℤ → OrderRow
with_id o id = record o { order_id = id }

pub record Inserted (o : OrderRow) (id : ℤ) (d d' : Db) : Type 0 where
  pub fits : price_fits o.price ≡ true
  pub checks : order_checks o ≡ ok tt
  pub id_next : id ≡ d.next_order_id
  pub new : find_client o.user_id o.client_order_id d.orders ≡ none
  pub rest : d' ≡ record d {
    orders = d.orders ++ with_id o id ∷ [];
    next_order_id = id +ℤ pos 1;
    faults = d'.faults;
  }

insert_row_ok :
    (o : OrderRow) (id : ℤ) (d d' : Db)
    → price_fits o.price ≡ true
    → insert_row o d ≡ (ok id, d')
    → Inserted o id d d'
unfolding insert_row
insert_row_ok o id d d' fits h = elim (Result-cases (order_checks o)) [
  | inr (e, q) ↦ absurd (ground arith)
  | inl (_, q) ↦ elim (Option-cases (find_client o.user_id o.client_order_id d.orders)) [
    | inr (p, e) ↦ absurd (ground arith)
    | inl e ↦ record {
      fits = fits;
      checks = q;
      id_next = ground arith;
      new = e;
      rest = ground arith;
    }
  ]
]

insert_order_ok :
    (o : OrderRow) (id : ℤ) (d d' : Db) → insert_order o d ≡ (ok id, d') → Inserted o id d d'
unfolding insert_order
insert_order_ok o id d d' h =
    let bad = not (price_fits o.price) in
    let insert = reach >> insert_row o in
    let (_, d₁, fits, h₁) = >>=-eq-ok (raise_if bad out_of_range) (λ _. insert) d d' h in
    let (_, d₂, through, h₂) = >>=-eq-ok reach (λ _. insert_row o) d₁ d' h₁ in
    let (within, e₁) = raise_if_ok bad out_of_range d d₁ fits in
    let e₂ = reach_ok d₁ d₂ through in
    let done = insert_row_ok o id d₂ d' (ground arith) h₂ in
    record {
      fits = done.fits;
      checks = done.checks;
      id_next = ground (arith, done.id_next);
      new = ground (arith, done.new);
      rest = ground (arith, done.rest);
    }

freeze_order_ok :
    (o : OrderRow) (currency : Text) (id id' : ℤ) (d d' : Db)
    → freeze_order o currency id d ≡ (ok id', d')
    → (id' ≡ id) × Journaled (order_key id) (freeze o.user_id currency o.reserved) d d'
unfolding freeze_order
freeze_order_ok o currency id id' d d' h =
    let k = order_key id in
    let ms = freeze o.user_id currency o.reserved in
    elim (Result-cases (post_tx k ms d).0) [
      | inr (e, q) ↦ absurd (ground arith)
      | inl (_, q) ↦ (ground arith, post_tx_ok k ms d d' (ground arith))
    ]

-- The order was inserted and its reserve frozen in one transaction.
pub record Frozen (o : OrderRow) (currency : Text) (id : ℤ) (d d' : Db) : Type 0 where
  pub start : Db
  pub middle : Db
  pub started : start ≡ record d { faults = start.faults }
  pub inserted : Inserted o id start middle
  pub end_ : Db
  pub journal : Journaled (order_key id) (freeze o.user_id currency o.reserved) middle end_
  pub ended : d' ≡ record end_ { faults = d'.faults }

pub place_tx_ok :
    (o : OrderRow) (currency : Text) (id : ℤ) (d d' : Db)
    → with_tx (place_tx o currency) d ≡ (ok id, d')
    → Frozen o currency id d d'
unfolding place_tx
place_tx_ok o currency id d d' h =
    let (opened, ran, closed) = with_tx_ok (place_tx o currency) d d' id h in
    let start = (reach d).1 in
    let end_ = (place_tx o currency start).1 in
    let (id', middle, first, rest) =
      >>=-eq-ok (insert_order o) (freeze_order o currency) start end_ (ground arith) in
    let (same, journal) = freeze_order_ok o currency id' id middle end_ rest in
    record {
      start = start;
      middle = middle;
      started = opened;
      inserted = rw (same) (insert_order_ok o id' start middle first);
      end_ = end_;
      journal = rw (same) journal;
      ended = closed;
    }

-- The balances behind the freeze.
pub Frozen-balances :
    (o : OrderRow) (c : Text) (id : ℤ) (d d' : Db)
    → IsInt64 o.reserved
    → Frozen o c id d d'
    → let account = user_ref o.user_id c in
      (balance_of (account available) d'.accounts
        ≡ balance_of (account available) d.accounts -ℤ o.reserved)
      × (balance_of (account frozen) d'.accounts
          ≡ balance_of (account frozen) d.accounts +ℤ o.reserved)
      × (d'.orders ≡ d.orders ++ with_id o id ∷ [])
Frozen-balances o c id d d' fits f =
    let (out, back) =
      shifted_balances (order_key id) o.user_id c available frozen o.reserved f.journal.opened
        f.end_ fits (λ e. cc) (λ e. cc) f.journal.posts in
    let before : f.journal.opened.accounts ≡ d.accounts =
      ground (arith, f.journal.inserted, f.inserted.rest, f.started) in
    let after : d'.accounts ≡ f.end_.accounts = ap (λ (x : Db). x.accounts) f.ended in
    let last : d'.orders ≡ f.end_.orders = ap (λ (x : Db). x.orders) f.ended in
    (
      rw (after, ← before) out,
      rw (after, ← before) back,
      ground (
        arith,
        last,
        f.started,
        f.inserted.rest,
        Journaled-orders (order_key id) (freeze o.user_id c o.reserved) f.middle f.end_ f.journal,
      ),
    )
