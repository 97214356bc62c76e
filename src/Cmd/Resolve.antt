-- ===== src/Cmd/Resolve.antt =====
-- cmd/height_resolver.go: getChainBounds, resolveFromHeight and resolveToHeight. What ParseInt and
-- time.Parse make of the flag is a `HeightFlag`; the answer to the status query is an argument, `none` for
-- an error. The fuel of the search is the latest height.
pub mod Day
use pocket_settlement_monito.Prelude.{
  ℕ, ◌+◌, ◌-◌, Bool, true, false, Option, none, some, ltb, leb, if◌then◌else◌,
}
use pocket_settlement_monito.Prelude.Exec.{Error, rpc, Result, ok, err}
use pocket_settlement_monito.Store.Models.{Time}
use pocket_settlement_monito.Cmd.Search.{
  Answer, header, lowest, failed, find_first_block_at_or_after,
}

pub data HeightFlag : Type 0 where
  height : ℕ → HeightFlag
  date : (start_of_day : Time) → HeightFlag
  datetime : Time → HeightFlag
  neither : HeightFlag

-- The errors of a resolution.
pub data ResolveError : Type 0 where
  cannot_parse : ResolveError
  before_earliest : ResolveError
  query_failed : Error → ResolveError

pub data Resolved : Type 0 where
  resolved : ℕ → Resolved
  refused : ResolveError → Resolved

-- `targetTime.AddDate(0, 0, 1)`, in UTC.
abbrev pub next_day : Time → Time
next_day start_of_day = start_of_day + 86400000000000

-- The lowest height that the probe of height 1 reveals.
abbrev probed : Answer → ℕ
probed (header time) = 1
probed (lowest parsed) = parsed
probed failed = 1

abbrev pub ended : (Result ℕ → Resolved) → Option (Result ℕ) → Option Resolved
ended rest none = none
ended rest (some r) = some (rest r)

module _ (status : Option (ℕ × ℕ)) (query_header : ℕ → Answer) where
  abbrev pub get_chain_bounds : Option (ℕ × ℕ)
  get_chain_bounds = elim status [
    | none ↦ none
    | some (earliest, latest) ↦
        some (if ltb 0 earliest then (earliest, latest) else (probed (query_header 1), latest))
  ]

  abbrev pub as_found : Result ℕ → Resolved
  as_found (ok h) = resolved h
  as_found (err e) = refused (query_failed e)

  -- `if firstOfNextDay <= earliest { return 0, … }; return firstOfNextDay - 1, nil`
  abbrev pub last_of_day : ℕ → Result ℕ → Resolved
  last_of_day earliest (ok first) =
      if leb first earliest then refused before_earliest else resolved (first - 1)
  last_of_day earliest (err e) = refused (query_failed e)

  -- The search between the chain's bounds; `none` is a search that has not ended.
  abbrev pub search_chain : (ℕ → Result ℕ → Resolved) → Time → Option Resolved
  search_chain rest target = elim get_chain_bounds [
    | none ↦ some (refused (query_failed rpc))
    | some (earliest, latest) ↦
        ended (rest earliest)
          (find_first_block_at_or_after query_header target latest earliest latest)
  ]

  unfoldable pub resolve_from_height : HeightFlag → Option Resolved
  resolve_from_height (height h) = some (resolved h)
  resolve_from_height (date start) = search_chain (λ earliest. as_found) start
  resolve_from_height (datetime time) = search_chain (λ earliest. as_found) time
  resolve_from_height neither = some (refused cannot_parse)

  unfoldable pub resolve_to_height : HeightFlag → Option Resolved
  resolve_to_height (height h) = some (resolved h)
  resolve_to_height (date start) = search_chain last_of_day (next_day start)
  resolve_to_height (datetime time) = search_chain (λ earliest. as_found) time
  resolve_to_height neither = some (refused cannot_parse)
