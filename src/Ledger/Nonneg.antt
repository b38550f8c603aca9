-- ===== src/Ledger/Nonneg.antt =====
-- No journal leaves a balance below zero.
use lcex.Prelude.{ap, List, [], ◌∷◌}
use lcex.Db.{BizKey, Db}
use lcex.Db.Store.{store-IsNonneg, IsNonneg}
use lcex.Ledger.{Move}
use lcex.Ledger.Effect.{Posted, Posts, Journaled, moved}

Posted-IsNonneg :
    (k : BizKey) (m : Move) (d d' : Db)
    → Posted k m d d'
    → IsNonneg d.accounts
    → IsNonneg d'.accounts
Posted-IsNonneg k m d d' p h =
    rw (p.accounts) (store-IsNonneg m.account (moved m d) d.accounts p.nonneg h)

pub Posts-IsNonneg :
    (k : BizKey) (ms : List Move) (d d' : Db)
    → Posts k ms d d'
    → IsNonneg d.accounts
    → IsNonneg d'.accounts
Posts-IsNonneg k [] d d' p h = rw p h
Posts-IsNonneg k (m ∷ ms) d d' (d₁, p, ps) h =
    Posts-IsNonneg k ms d₁ d' ps (Posted-IsNonneg k m d d₁ p h)

pub Journaled-IsNonneg :
    (k : BizKey) (ms : List Move) (d d' : Db)
    → Journaled k ms d d'
    → IsNonneg d.accounts
    → IsNonneg d'.accounts
Journaled-IsNonneg k ms d d' j h =
    Posts-IsNonneg k ms j.opened d' j.posts (rw (ap (λ (x : Db). x.accounts) j.inserted) h)
