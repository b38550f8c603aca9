-- ===== src/MarketData/Store/Kept.antt =====
-- On `apply` of services/market/state.go: what the state of every symbol satisfies.
use lcex.Prelude.{
  ℕ, ◌≤◌, ◌≡◌, List, [], ◌∷◌, arith, leb, All, All-weaken, some, Bool-cases, Option-cases, inl, inr,
}
use lcex.Prelude.Text.{Text, codes, text_eq}
use lcex.Events.{Event, OrderUpdate, Trade}
use lcex.MarketData.{SymbolState, Side, RestingOrder, bids, asks, new_state, set_depth}
use lcex.MarketData.Book.{apply_order_update, remove_level, add_order, change_order}
use lcex.MarketData.Book.Cases.{apply_order_update-Keeps}
use lcex.MarketData.Book.Keyed.{IsBook, apply_order_update-IsBook}
use lcex.MarketData.Tape.{apply_trade}
use lcex.MarketData.Tape.Window.{IsTape, apply_trade-IsTape}
use lcex.MarketData.Store.{
  StateStore, find_state, put_state, apply_kind, apply_event, apply, store_with,
}
use lcex.MarketData.Store.Replay.{Delivery, deliver}

-- The state of a symbol at a time: no key is listed twice; there are at most 5000 trades, in the order of
-- their times and within 24 hours of the latest; the candles are those of recent minutes.
pub record IsKept (now : ℕ) (st : SymbolState) : Type 0 where
  pub book : IsBook st
  pub latest : ℕ
  pub latest_past : latest ≤ now
  pub tape : IsTape latest st

-- Every state of the store.
abbrev pub AreKept : ℕ → StateStore → Type 0
AreKept now = All (λ (e : Text × SymbolState). IsKept now e.1)

-- The clock of the service does not go back.
abbrev pub IsTimely : ℕ → List Delivery → Type 0
IsTimely now [] = Unit
IsTimely now (d ∷ ds) = (now ≤ d.now) × IsTimely d.now ds

abbrev pub last_time : ℕ → List Delivery → ℕ
last_time now [] = now
last_time now (d ∷ ds) = last_time d.now ds

later-IsKept : (now now' : ℕ) (st : SymbolState) → now ≤ now' → IsKept now st → IsKept now' st
later-IsKept now now' st h k = record {
  book = k.book;
  latest = k.latest;
  latest_past = omega (arith, k.latest_past);
  tape = k.tape;
}

-- A step of the book leaves the trades and candles as they were.
set_depth-IsTape :
    (latest : ℕ) (side : Side) (depth : List (ℕ × ℕ)) (resting : List (ℕ × RestingOrder))
    (st : SymbolState)
    → IsTape latest st
    → IsTape latest (record (set_depth side depth st) { resting = resting })
set_depth-IsTape latest bids depth resting st h = record {
  timed = h.timed;
  few = h.few;
  candles = h.candles;
  recent = h.recent;
  keyed = h.keyed;
}
set_depth-IsTape latest asks depth resting st h = record {
  timed = h.timed;
  few = h.few;
  candles = h.candles;
  recent = h.recent;
  keyed = h.keyed;
}

apply_order_update-IsTape :
    (latest : ℕ) (u : OrderUpdate) (st : SymbolState)
    → IsTape latest st
    → IsTape latest (apply_order_update u st).0
unfolding remove_level add_order change_order
apply_order_update-IsTape latest =
    apply_order_update-Keeps (IsTape latest)
      (λ side _ _ _ st h. set_depth-IsTape latest side _ _ st h)
      (λ side _ _ _ st h. set_depth-IsTape latest side _ _ st h)
      (λ side _ _ _ st h. set_depth-IsTape latest side _ _ st h)

order_update-IsKept :
    (now : ℕ) (u : OrderUpdate) (st : SymbolState)
    → IsKept now st
    → IsKept now (apply_order_update u st).0
order_update-IsKept now u st k = record {
  book = apply_order_update-IsBook u st k.book;
  latest = k.latest;
  latest_past = k.latest_past;
  tape = apply_order_update-IsTape k.latest u st k.tape;
}

apply_trade-IsKept :
    (now : ℕ) (t : Trade) (seq : ℕ) (st : SymbolState)
    → IsKept now st
    → IsKept now (apply_trade now t seq st).0
unfolding apply_trade
apply_trade-IsKept now t seq st k = record {
  book = record {
    resting = k.book.resting;
    bid_side = k.book.bid_side;
    ask_side = k.book.ask_side;
  };
  latest = now;
  latest_past = omega arith;
  tape = apply_trade-IsTape k.latest now t seq st k.latest_past k.tape;
}

apply_kind-IsKept :
    (now : ℕ) (ev : Event) (st : SymbolState) → IsKept now st → IsKept now (apply_kind now ev st).0
unfolding apply_kind
apply_kind-IsKept now ev st k = elim (Bool-cases (text_eq ev.kind (codes "order_update"))) [
  | inl t ↦ elim (Option-cases ev.as_order_update) [
    | inl e ↦ rw (t, e) k
    | inr (u, e) ↦ rw (t, e) (order_update-IsKept now u st k)
  ]
  | inr f ↦ elim (Bool-cases (text_eq ev.kind (codes "trade"))) [
    | inl t ↦ elim (Option-cases ev.as_trade) [
      | inl e ↦ rw (f, t, e) k
      | inr (u, e) ↦ rw (f, t, e) (apply_trade-IsKept now u ev.seq st k)
    ]
    | inr g ↦ rw (f, g) k
  ]
]

seen-IsKept :
    (now n : ℕ) (st : SymbolState) → IsKept now st → IsKept now (record st { last_seq = n })
seen-IsKept now n st k = record {
  book = record {
    resting = k.book.resting;
    bid_side = k.book.bid_side;
    ask_side = k.book.ask_side;
  };
  latest = k.latest;
  latest_past = k.latest_past;
  tape = record {
    timed = k.tape.timed;
    few = k.tape.few;
    candles = k.tape.candles;
    recent = k.tape.recent;
    keyed = k.tape.keyed;
  };
}

apply_event-IsKept :
    (now : ℕ) (ev : Event) (st : SymbolState) → IsKept now st → IsKept now (apply_event now ev st).0
unfolding apply_event
apply_event-IsKept now ev st k = elim (Bool-cases (leb ev.seq st.last_seq)) [
  | inl t ↦ rw t k
  | inr f ↦ rw f (apply_kind-IsKept now ev _ (seen-IsKept now ev.seq st k))
]

put_state-AreKept :
    (now : ℕ) (symbol : Text) (st : SymbolState) (s : StateStore)
    → IsKept now st
    → AreKept now s
    → AreKept now (put_state symbol st s)
unfolding put_state
put_state-AreKept now symbol st [] k h = (k, tt)
put_state-AreKept now symbol st ((name, old) ∷ s) k h = elim (Bool-cases (text_eq name symbol)) [
  | inl t ↦ rw t (k, h.1)
  | inr f ↦ rw f (h.0, put_state-AreKept now symbol st s k h.1)
]

find_state-IsKept :
    (now : ℕ) (symbol : Text) (s : StateStore) {st : SymbolState}
    → AreKept now s
    → find_state symbol s ≡ some st
    → IsKept now st
unfolding find_state
find_state-IsKept now symbol [] h e = cc
find_state-IsKept now symbol ((name, old) ∷ s) {st} h e = elim (Bool-cases (text_eq name symbol)) [
  | inl t ↦ let same : old ≡ st = ground arith in rw same at h.0
  | inr f ↦ find_state-IsKept now symbol s h.1 (rw f at e)
]

apply-AreKept :
    (now : ℕ) (symbol : Text) (ev : Event) (s : StateStore)
    → AreKept now s
    → AreKept now (apply now symbol ev s).0
unfolding apply
apply-AreKept now symbol ev s h = elim (Option-cases (find_state symbol s)) [
  | inl e ↦ rw e h
  | inr (st, e) ↦ rw e (
      put_state-AreKept now symbol (apply_event now ev st).0 s
        (apply_event-IsKept now ev st (find_state-IsKept now symbol s h e)) h)
]

-- Whatever events the consumer reads, in whatever order and how often, if its clock does not go back,
-- the state of every symbol keeps this: no key of its maps is listed twice; it has at most 5000 trades,
-- in the order of their times, none more than 24 hours older than the latest; and its candles are of
-- minutes at most 3000 minutes older than the latest trade, each with the low at most and the high at
-- least the opening and the closing price.
pub deliver-AreKept :
    (now : ℕ) (ds : List Delivery) (s : StateStore)
    → IsTimely now ds
    → AreKept now s
    → AreKept (last_time now ds) (deliver ds s)
unfolding deliver
deliver-AreKept now [] s t h = h
deliver-AreKept now (d ∷ ds) s t h =
    let later =
      All-weaken (λ (e : Text × SymbolState). IsKept now e.1) (λ e. IsKept d.now e.1) s
        (λ e k. later-IsKept now d.now e.1 t.0 k) h in
    deliver-AreKept d.now ds (apply d.now d.symbol d.event s).0 t.1
      (apply-AreKept d.now d.symbol d.event s later)

new_state-IsKept : (now : ℕ) (symbol : Text) → IsKept now (new_state symbol)
new_state-IsKept now symbol = record {
  book = record { resting = tt; bid_side = tt; ask_side = tt };
  latest = 0;
  latest_past = omega arith;
  tape = record { timed = tt; few = omega arith; candles = tt; recent = tt; keyed = tt };
}

-- The store that the service starts with.
pub new_state_store-AreKept :
    (now : ℕ) (symbols : List Text) (s : StateStore)
    → AreKept now s
    → AreKept now (store_with symbols s)
unfolding store_with
new_state_store-AreKept now [] s h = h
new_state_store-AreKept now (symbol ∷ symbols) s h =
    new_state_store-AreKept now symbols (put_state symbol (new_state symbol) s)
      (put_state-AreKept now symbol (new_state symbol) s (new_state-IsKept now symbol) h)
