-- ===== src/PriceIndex/Publish.antt =====
-- The loop of the price index service (services/price-index/aggregate.go): what a tick and a turn of the
-- clock do to its state, and what is written to Redis and sent to Kafka; with the prices that its sources
-- accept (services/price-index/sources.go) and what is read over HTTP (services/price-index/http.go).
-- Neither Redis nor the producer returns anything that the loop reads.
use lcex.Prelude.{
  ℕ, ◌/◌, Bool, true, false, not, ◌&&◌, ◌||◌, ◌==◌, ◌++◌, List, [], ◌∷◌, Option, none, some,
  if◌then◌else◌, Result, ok, err,
}
use lcex.Prelude.Int.{ℤ, pos, ◌-ℤ◌, ltb_ℤ}
use lcex.Prelude.Word.{add64}
use lcex.Prelude.Text.{Text, codes, to_lower}
use lcex.Prelude.Dict.{find, put}
use lcex.Fixed.{FixedErr, parse, format}
use lcex.PriceIndex.{SourcePrice, IndexResult, compute_index}

abbrev both_prices : Result FixedErr ℕ → Result FixedErr ℕ → Option ℕ
both_prices (ok bid) (ok ask) = if (bid == 0) || (ask == 0) then none else some (add64 bid ask / 2)
both_prices _ _ = none

-- `midOf`; the sum wraps around on uint64.
unfoldable pub mid_of : Text → Text → Option ℕ
mid_of bid ask = both_prices (parse bid) (parse ask)

-- `lastOf`
unfoldable pub last_of : Text → Option ℕ
last_of px = elim (parse px) [ err e ↦ none | ok p ↦ if p == 0 then none else some p ]

pub record Tick : Type 0 where
  pub symbol : Text
  pub source : Text
  pub price : ℕ
  pub ts : ℤ

-- The state of `service` that the loop owns; `last_index` also has what was published last, under the
-- symbol with `#pub`.
pub record IndexState : Type 0 where
  pub by_src : List (Text × List (Text × SourcePrice))
  pub last_index : List (Text × IndexResult)
  pub last_pub : List (Text × ℤ)

-- `indexSnapshot`; `ts` is the time itself, which is shown in milliseconds.
pub record Snapshot : Type 0 where
  pub symbol : Text
  pub index : Text
  pub is_ok : Bool
  pub ts : ℤ
  pub usable : List Text
  pub rejected : List (Text × Text)

pub data Output : Type 0 where
  redis_set : Text → Snapshot → Output
  produced : Text → Text → Snapshot → Output

unfoldable pub index_snapshot : Text → IndexResult → ℤ → Snapshot
index_snapshot symbol res now = record {
  symbol = symbol;
  index = format res.index;
  is_ok = res.is_ok;
  ts = now;
  usable = res.usable;
  rejected = res.rejected;
}

abbrev prices : Option (List (Text × SourcePrice)) → List (Text × SourcePrice)
prices none = []
prices (some pxs) = pxs

abbrev index_of : Option IndexResult → ℕ
index_of none = 0
index_of (some res) = res.index

-- Since Go's zero time it is always over a second.
abbrev is_due : Option ℤ → ℤ → Bool
is_due none later = true
is_due (some t) later = ltb_ℤ (pos 1000000000) (later -ℤ t)

abbrev pub published_key : Text → Text
published_key symbol = symbol ++ codes "#pub"

abbrev has_changed : Option IndexResult → IndexResult → Bool
has_changed none res = true
has_changed (some prev) res = not (prev.index == res.index)

-- The configuration: the prefix of the topics, the age of a stale price, and the deviation allowed.
module _ (prefix : Text) (stale : ℤ) (max_dev : ℕ) where
  -- Kafka: an index that has changed, or the last publication is over a second ago.
  unfoldable pub produce : Text → IndexResult → ℤ → ℤ → IndexState → List Output × IndexState
  produce symbol res now later s =
      let payload = index_snapshot symbol res now in
      if has_changed (find (published_key symbol) s.last_index) res
        || is_due (find symbol s.last_pub) later
      then (
        produced (prefix ++ (codes ".index." ++ to_lower symbol)) symbol payload ∷ [],
        record s {
          last_index =
              put (published_key symbol)
                (record { index = res.index; is_ok = false; usable = []; rejected = [] })
                s.last_index;
          last_pub = put symbol now s.last_pub;
        },
      )
      else ([], s)

  -- `recomputeAndPublish`, at `now`; `later` is the time of `time.Since`.
  unfoldable pub recompute_and_publish : Text → ℤ → ℤ → IndexState → List Output × IndexState
  recompute_and_publish symbol now later s =
      let res = compute_index (prices (find symbol s.by_src)) now stale max_dev in
      if not res.is_ok && (index_of (find symbol s.last_index) == 0)
      then ([], s)
      else let known = record s { last_index = put symbol res s.last_index } in
        let (sent, s') = produce symbol res now later known in
        (redis_set (codes "cex:index:" ++ symbol) (index_snapshot symbol res now) ∷ sent, s')

  -- A tick of `aggregateLoop`.
  unfoldable pub on_tick : Tick → ℤ → ℤ → IndexState → List Output × IndexState
  on_tick t now later s =
      let pxs =
        put t.source (record { price = t.price; ts = t.ts }) (prices (find t.symbol s.by_src)) in
      recompute_and_publish t.symbol now later (record s { by_src = put t.symbol pxs s.by_src })

-- What `handleIndex` reads: the last index and the prices; `none` is "not found".
unfoldable pub handle_index :
    Text → IndexState → Option (Option IndexResult × List (Text × SourcePrice))
handle_index symbol s =
    let pxs = prices (find symbol s.by_src) in
    elim pxs [
      | [] ↦
          if index_of (find symbol s.last_index) == 0
          then none
          else some (find symbol s.last_index, [])
      | e ∷ es ↦ some (find symbol s.last_index, e ∷ es)
    ]
