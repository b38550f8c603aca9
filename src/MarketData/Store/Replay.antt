-- ===== src/MarketData/Store/Replay.antt =====
-- On `apply` of services/market/state.go: what events that were delivered before do.
use lcex.Prelude.{
  ℕ, ◌≤◌, ◌≡◌, refl, ap, ◌∙◌, List, [], ◌∷◌, ◌++◌, some, arith, if◌then◌else◌, Bool-cases,
  Option-cases, inl, inr,
}
use lcex.Prelude.Text.{Text, codes, text_eq, text_eq_iff}
use lcex.Events.{Event, OrderUpdate}
use lcex.MarketData.{SymbolState, Side, bids, asks, set_depth}
use lcex.MarketData.Book.{apply_order_update, change_order, add_order, remove_level}
use lcex.MarketData.Book.Cases.{apply_order_update-Keeps}
use lcex.MarketData.Tape.{apply_trade}
use lcex.MarketData.Store.{
  StateStore, find_state, put_state, nothing, apply_kind, apply_event, apply,
}

-- A record that the consumer reads, and when.
pub record Delivery : Type 0 where
  pub now : ℕ
  pub symbol : Text
  pub event : Event

-- The deliveries, one after the other.
unfoldable pub deliver : List Delivery → StateStore → StateStore
deliver [] s = s
deliver (d ∷ ds) s = deliver ds (apply d.now d.symbol d.event s).0

pub find_state-put_state :
    (symbol key : Text) (st : SymbolState) (s : StateStore)
    → find_state key (put_state symbol st s)
      ≡ (if text_eq symbol key then some st else find_state key s)
unfolding find_state put_state
find_state-put_state symbol key st [] = refl
find_state-put_state symbol key st ((name, old) ∷ s) = ground (
  arith,
  text_eq_iff name symbol,
  text_eq_iff symbol key,
  text_eq_iff name key,
  find_state-put_state symbol key st s,
)

put_state-find_state :
    (symbol : Text) (st : SymbolState) (s : StateStore)
    → find_state symbol s ≡ some st
    → put_state symbol st s ≡ s
unfolding find_state put_state
put_state-find_state symbol st [] h = cc
put_state-find_state symbol st ((name, old) ∷ s) h =
    ground (arith, text_eq_iff name symbol, put_state-find_state symbol st s)

set_depth-last_seq :
    (side : Side) (depth : List (ℕ × ℕ)) (st : SymbolState)
    → (set_depth side depth st).last_seq ≡ st.last_seq
set_depth-last_seq bids depth st = refl
set_depth-last_seq asks depth st = refl

apply_order_update-last_seq :
    (u : OrderUpdate) (st : SymbolState) → (apply_order_update u st).0.last_seq ≡ st.last_seq
unfolding remove_level add_order change_order
apply_order_update-last_seq u st =
    apply_order_update-Keeps (λ (s : SymbolState). s.last_seq ≡ st.last_seq)
      (λ side _ _ _ s h. set_depth-last_seq side _ s ∙ h)
      (λ side _ _ _ s h. set_depth-last_seq side _ s ∙ h)
      (λ side _ _ _ s h. set_depth-last_seq side _ s ∙ h) u st refl

apply_kind-last_seq :
    (now : ℕ) (ev : Event) (st : SymbolState) → (apply_kind now ev st).0.last_seq ≡ st.last_seq
unfolding apply_kind apply_trade
apply_kind-last_seq now ev st = elim (Bool-cases (text_eq ev.kind (codes "order_update"))) [
  | inl t ↦ elim (Option-cases ev.as_order_update) [
    | inl e ↦ rw (t, e) refl
    | inr (u, e) ↦ rw (t, e) (apply_order_update-last_seq u st)
  ]
  | inr f ↦ elim (Bool-cases (text_eq ev.kind (codes "trade"))) [
    | inl t ↦ elim (Option-cases ev.as_trade) [
      | inl e ↦ rw (f, t, e) refl
      | inr (u, e) ↦ rw (f, t, e) refl
    ]
    | inr g ↦ rw (f, g) refl
  ]
]

-- The symbol, if it is served, has seen the sequence number.
abbrev Covers : Text → ℕ → StateStore → Type 0
Covers symbol n s = (st : SymbolState) → find_state symbol s ≡ some st → n ≤ st.last_seq

apply_event-last_seq :
    (now : ℕ) (ev : Event) (st : SymbolState)
    → (ev.seq ≤ (apply_event now ev st).0.last_seq)
      × (st.last_seq ≤ (apply_event now ev st).0.last_seq)
unfolding apply_event
apply_event-last_seq now ev st =
    ground (arith, apply_kind-last_seq now ev (record st { last_seq = ev.seq }))

apply-Covers_self :
    (now : ℕ) (symbol : Text) (ev : Event) (s : StateStore)
    → Covers symbol ev.seq (apply now symbol ev s).0
unfolding apply
apply-Covers_self now symbol ev s st h = elim (Option-cases (find_state symbol s)) [
  | inl e ↦ absurd (ground arith)
  | inr (old, e) ↦ ground (
    arith,
    find_state-put_state symbol symbol (apply_event now ev old).0 s,
    text_eq_iff symbol symbol,
    apply_event-last_seq now ev old,
  )
]

apply-Covers :
    (now : ℕ) (symbol key : Text) (n : ℕ) (ev : Event) (s : StateStore)
    → Covers key n s
    → Covers key n (apply now symbol ev s).0
unfolding apply
apply-Covers now symbol key n ev s c st h = elim (Option-cases (find_state symbol s)) [
  | inl e ↦ c st (rw e at h)
  | inr (old, e) ↦
      let put_back = find_state-put_state symbol key (apply_event now ev old).0 s in
      let grown = (apply_event-last_seq now ev old).1 in
      let found : find_state key (put_state symbol (apply_event now ev old).0 s) ≡ some st =
        rw e at h in
      elim (Bool-cases (text_eq symbol key)) [
        | inl t ↦
            let same : symbol ≡ key = (text_eq_iff symbol key).0 t in
            let before = c old (rw same at e) in
            let is_new : (apply_event now ev old).0 ≡ st = ground (arith, put_back) in
            omega (arith, before, grown, ap (λ (x : SymbolState). x.last_seq) is_new)
        | inr f ↦ c st (ground (arith, put_back))
      ]
]

apply_seen :
    (now : ℕ) (symbol : Text) (ev : Event) (s : StateStore)
    → Covers symbol ev.seq s
    → apply now symbol ev s ≡ (s, nothing)
unfolding apply
apply_seen now symbol ev s c = elim (Option-cases (find_state symbol s)) [
  | inl e ↦ rw e refl
  | inr (st, e) ↦
      let seen : apply_event now ev st ≡ (st, nothing) =
        unfold apply_event in ground (arith, c st e) in
      rw (e, seen, put_state-find_state symbol st s e) refl
]

deliver-Covers :
    (key : Text) (n : ℕ) (ds : List Delivery) (s : StateStore)
    → Covers key n s
    → Covers key n (deliver ds s)
unfolding deliver
deliver-Covers key n [] s c = c
deliver-Covers key n (d ∷ ds) s c =
    deliver-Covers key n ds (apply d.now d.symbol d.event s).0
      (apply-Covers d.now d.symbol key n d.event s c)

deliver-append :
    (ds es : List Delivery) (s : StateStore) → deliver (ds ++ es) s ≡ deliver es (deliver ds s)
unfolding deliver
deliver-append [] es s = refl
deliver-append (d ∷ ds) es s = deliver-append ds es (apply d.now d.symbol d.event s).0

-- An event that was delivered once, with whatever before and after it, changes nothing and publishes
-- nothing when it is delivered again, at whatever time.
pub apply_again :
    (now : ℕ) (d : Delivery) (before after : List Delivery) (s : StateStore)
    → let reached = deliver (before ++ (d ∷ after)) s in
      apply now d.symbol d.event reached ≡ (reached, nothing)
unfolding deliver
apply_again now d before after s = apply_seen now d.symbol d.event _ (
    rw (deliver-append before (d ∷ after) s) (
      deliver-Covers d.symbol d.event.seq after (apply d.now d.symbol d.event (deliver before s)).0
        (apply-Covers_self d.now d.symbol d.event (deliver before s))))
