-- ===== src/MarketData/Hub/Safe.antt =====
-- On `publish` of services/market/ws.go: whom it reaches, and when a send panics.
use lcex.Prelude.{
  ℕ, ◌≡◌, refl, ◌≤◌, true, false, ◌==◌, List, [], ◌∷◌, ◌++◌, Option, none, some, ltb, length, All,
  All-weaken, arith, Bool-cases, Option-cases, inl, inr,
}
use lcex.Prelude.Text.{Text, text_eq}
use lcex.Prelude.Dict.{find}
use lcex.Prelude.Table as Conns
use lcex.MarketData.Hub.{
  Payload, WsConn, WsHub, send_size, members, has_conn, without, topic_with, leave, remove,
  send_or_close, publish_to, publish_all, publish, publish_conn,
}

-- The channel of the connection is open.
abbrev pub IsOpen : List (ℕ × WsConn) → ℕ → Type 0
IsOpen conns c = (k : WsConn) → Conns.find c conns ≡ some k → k.closed ≡ false

-- No connection stands there twice.
abbrev pub AreDistinct : List ℕ → Type 0
AreDistinct [] = Unit
AreDistinct (c ∷ cs) = (has_conn c cs ≡ false) × AreDistinct cs

-- The connections of a topic are distinct and open.
abbrev IsTopic : List (ℕ × WsConn) → Text × List ℕ → Type 0
IsTopic conns e = AreDistinct e.1 × All (IsOpen conns) e.1

-- Those that are subscribed to anything are.
abbrev pub IsSafe : WsHub → Type 0
IsSafe h = All (IsTopic h.conns) h.subs

abbrev IsOther : ℕ → ℕ → Type 0
IsOther c b = (b == c) ≡ false

without-IsOther : (c : ℕ) (cs : List ℕ) → All (IsOther c) (without c cs)
unfolding without
without-IsOther c [] = tt
without-IsOther c (b ∷ cs) = elim (Bool-cases (b == c)) [
  | inl t ↦ rw t (without-IsOther c cs)
  | inr f ↦ rw f (f, without-IsOther c cs)
]

without-All {κ} : (P : ℕ → Type κ) (c : ℕ) (cs : List ℕ) → All P cs → All P (without c cs)
unfolding without
without-All P c [] h = tt
without-All P c (b ∷ cs) h = elim (Bool-cases (b == c)) [
  | inl t ↦ rw t (without-All P c cs h.1)
  | inr f ↦ rw f (h.0, without-All P c cs h.1)
]

has_conn-without :
    (b c : ℕ) (cs : List ℕ) → has_conn b cs ≡ false → has_conn b (without c cs) ≡ false
unfolding has_conn without
has_conn-without b c [] h = refl
has_conn-without b c (a ∷ cs) h = ground (arith, has_conn-without b c cs)

without-AreDistinct : (c : ℕ) (cs : List ℕ) → AreDistinct cs → AreDistinct (without c cs)
unfolding without
without-AreDistinct c [] h = tt
without-AreDistinct c (b ∷ cs) h = elim (Bool-cases (b == c)) [
  | inl t ↦ rw t (without-AreDistinct c cs h.1)
  | inr f ↦ rw f (has_conn-without b c cs h.0, without-AreDistinct c cs h.1)
]

-- An open connection that is written stays open, and so do the others.
put-IsOpen :
    (c : ℕ) (k : WsConn) (conns : List (ℕ × WsConn)) (b : ℕ)
    → k.closed ≡ false
    → IsOpen conns b
    → IsOpen (Conns.put c k conns) b
put-IsOpen c k conns b open_ h x e = elim (Bool-cases (c == b)) [
  | inl t ↦ let same : k ≡ x = ground (arith, Conns.find-put c b k conns) in rw same at open_
  | inr f ↦ h x (ground (arith, Conns.find-put c b k conns))
]

-- Whatever becomes of a connection, the others stay open.
other-IsOpen :
    (c : ℕ) (k : WsConn) (conns : List (ℕ × WsConn)) (b : ℕ)
    → IsOther c b
    → IsOpen conns b
    → IsOpen (Conns.put c k conns) b
other-IsOpen c k conns b f h x e = h x (ground (arith, Conns.find-put c b k conns))

others-IsOpen :
    (c : ℕ) (k : WsConn) (conns : List (ℕ × WsConn)) (bs : List ℕ)
    → All (IsOther c) bs
    → All (IsOpen conns) bs
    → All (IsOpen (Conns.put c k conns)) bs
others-IsOpen c k conns [] f h = tt
others-IsOpen c k conns (b ∷ bs) f h =
    (other-IsOpen c k conns b f.0 h.0, others-IsOpen c k conns bs f.1 h.1)

topic_with-All :
    (P : Text × List ℕ → Type 0) (topic : Text) (cs : List ℕ) (subs : List (Text × List ℕ))
    → P (topic, cs)
    → All P subs
    → All P (topic_with topic cs subs)
topic_with-All P topic [] subs p h = h
topic_with-All P topic (c ∷ cs) subs p h = (p, h)

-- Once a connection has left all topics, its channel may be closed.
leave-IsSafe :
    (c : ℕ) (k : WsConn) (conns : List (ℕ × WsConn)) (subs : List (Text × List ℕ))
    → All (IsTopic conns) subs
    → All (IsTopic (Conns.put c k conns)) (leave (λ t. true) c subs)
unfolding leave
leave-IsSafe c k conns [] h = tt
leave-IsSafe c k conns ((topic, cs) ∷ subs) h =
    topic_with-All (IsTopic (Conns.put c k conns)) topic (without c cs) (leave (λ t. true) c subs)
      (
        without-AreDistinct c cs h.0.0,
        others-IsOpen c k conns (without c cs) (without-IsOther c cs)
            (without-All (IsOpen conns) c cs h.0.1),
      )
      (leave-IsSafe c k conns subs h.1)

written-IsSafe :
    (c : ℕ) (k : WsConn) (h : WsHub)
    → k.closed ≡ false
    → IsSafe h
    → IsSafe (record h { conns = Conns.put c k h.conns })
written-IsSafe c k h open_ =
    All-weaken (IsTopic h.conns) (IsTopic (Conns.put c k h.conns)) h.subs (λ e t. (
      t.0,
      All-weaken (IsOpen h.conns) (IsOpen (Conns.put c k h.conns)) e.1
          (λ b. put-IsOpen c k h.conns b open_) t.1,
    ))

-- What one turn of the loop leaves for the next.
record Reached (c : ℕ) (h : WsHub) (out : Option WsHub) : Type 0 where
  after : WsHub
  returned : out ≡ some after
  safe : IsSafe after
  kept : (b : ℕ) → IsOther c b → IsOpen h.conns b → IsOpen after.conns b

publish_to-Reached :
    (payload : Payload) (c : ℕ) (h : WsHub)
    → IsOpen h.conns c
    → IsSafe h
    → Reached c h (publish_to payload c h)
unfolding publish_to send_or_close remove
publish_to-Reached payload c h open_ safe = elim (Option-cases (Conns.find c h.conns)) [
  | inl e ↦ record { after = h; returned = ground arith; safe = safe; kept = λ b f o. o }
  | inr (conn, e) ↦
      let is_open : conn.closed ≡ false = open_ conn e in
      elim (Bool-cases (ltb (length conn.send) send_size)) [
        | inl t ↦
            let conn' : WsConn = record conn { send = conn.send ++ payload ∷ [] } in
            record {
              after = record h { conns = Conns.put c conn' h.conns };
              returned = ground arith;
              safe = written-IsSafe c conn' h is_open safe;
              kept = λ b f. other-IsOpen c conn' h.conns b f;
            }
        | inr f ↦
            let conn' : WsConn = record conn { closed = true } in
            record {
              after = record (remove c h) { conns = Conns.put c conn' h.conns };
              returned = ground arith;
              safe = leave-IsSafe c conn' h.conns h.subs safe;
              kept = λ b g. other-IsOpen c conn' h.conns b g;
            }
      ]
]

others_of_has_conn : (c : ℕ) (cs : List ℕ) → has_conn c cs ≡ false → All (IsOther c) cs
unfolding has_conn
others_of_has_conn c [] h = tt
others_of_has_conn c (b ∷ cs) h = (ground arith, others_of_has_conn c cs (ground arith))

kept_all :
    (c : ℕ) (conns conns' : List (ℕ × WsConn)) (cs : List ℕ)
    → ((b : ℕ) → IsOther c b → IsOpen conns b → IsOpen conns' b)
    → All (IsOther c) cs
    → All (IsOpen conns) cs
    → All (IsOpen conns') cs
kept_all c conns conns' [] k f h = tt
kept_all c conns conns' (b ∷ cs) k f h = (k b f.0 h.0, kept_all c conns conns' cs k f.1 h.1)

publish_all-IsSafe :
    (payload : Payload) (cs : List ℕ) (h : WsHub)
    → AreDistinct cs
    → All (IsOpen h.conns) cs
    → IsSafe h
    → (h' : WsHub) × (publish_all payload cs h ≡ some h') × IsSafe h'
unfolding publish_all
publish_all-IsSafe payload [] h d o safe = (h, refl, safe)
publish_all-IsSafe payload (c ∷ cs) h d o safe =
    let first = publish_to-Reached payload c h o.0 safe in
    let rest =
      kept_all c h.conns first.after.conns cs first.kept (others_of_has_conn c cs d.0) o.1 in
    let (h', e, safe') = publish_all-IsSafe payload cs first.after d.1 rest first.safe in
    (h', ground (arith, first.returned, e), safe')

find-IsTopic :
    (topic : Text) (conns : List (ℕ × WsConn)) (subs : List (Text × List ℕ))
    → All (IsTopic conns) subs
    → AreDistinct (members (find topic subs)) × All (IsOpen conns) (members (find topic subs))
unfolding find
find-IsTopic topic conns [] h = (tt, tt)
find-IsTopic topic conns ((t, cs) ∷ subs) h = elim (Bool-cases (text_eq t topic)) [
  | inl e ↦ rw e h.0
  | inr e ↦ rw e (find-IsTopic topic conns subs h.1)
]

-- If every connection that is subscribed to anything is open, `publish` does not panic, and it is so
-- again behind it, whichever channels are full.
pub publish-IsSafe :
    (topic : Text) (payload : Payload) (h : WsHub)
    → IsSafe h
    → (h' : WsHub) × (publish topic payload h ≡ some h') × IsSafe h'
unfolding publish
publish-IsSafe topic payload h safe =
    let (distinct, open_) = find-IsTopic topic h.conns h.subs safe in
    publish_all-IsSafe payload (members (find topic h.subs)) h distinct open_ safe

-- A client whose channel `publish` has closed, since it was full, makes the service panic with its next
-- ping: the answer is sent on the closed channel.
pub slow_client_panics :
    (payload answer : Payload) (c : ℕ) (conn : WsConn) (h h' : WsHub)
    → Conns.find c h.conns ≡ some conn
    → send_size ≤ length conn.send
    → publish_to payload c h ≡ some h'
    → publish_conn c answer h' ≡ none
unfolding publish_to send_or_close remove publish_conn
slow_client_panics payload answer c conn h h' e full p =
    ground (arith, Conns.find-put c c (record conn { closed = true }) h.conns)
