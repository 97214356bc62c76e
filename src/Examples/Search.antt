-- ===== src/Examples/Search.antt =====
-- The search for a height on a small chain.
use pocket_settlement_monito.Prelude.{ℕ, ◌*◌, ◌≤◌, ◌<◌, ◌≡◌, refl, ◌⊎◌, some, arith}
use pocket_settlement_monito.Prelude.Exec.{ok}
use pocket_settlement_monito.Cmd.Search.{narrow, find_first_block_at_or_after}
use pocket_settlement_monito.Cmd.Search.First.{pruned_node, find_first_block_at_or_after_lem}
use pocket_settlement_monito.Cmd.Resolve.{next_day, resolved, date, resolve_to_height}
use pocket_settlement_monito.Cmd.Resolve.Day.{EndsDay, resolve_to_height-EndsDay}

-- A block a minute.
abbrev minutes : ℕ → ℕ
minutes h = 60 * h

find_first_block_at_or_after_lem_example :
    (r : ℕ) × (find_first_block_at_or_after (pruned_node 20 minutes) 3000 99 1 100 ≡ some (ok r))
    × (1 ≤ r)
    × (r ≤ 100)
    × (((30 < r) × (minutes 30 < 3000)) ⊎ ((r ≤ 30) × ((r ≡ 100) ⊎ (3000 ≤ minutes 30))))
find_first_block_at_or_after_lem_example =
    find_first_block_at_or_after_lem 20 minutes 3000 100 (λ a b h. omega arith) 99 1 30
      (ground arith) (ground arith) (ground arith) (ground arith) (ground arith)

found : find_first_block_at_or_after (pruned_node 20 minutes) 3000 20 1 100 ≡ some (ok 50)
unfolding find_first_block_at_or_after narrow
found = refl

-- A block in six hours.
abbrev quarters : ℕ → ℕ
quarters h = 21600000000000 * h

resolve_to_height-EndsDay_example :
    EndsDay 2 100 quarters
      (λ a b h. omega arith)
      (next_day 864000000000000)
      (resolve_to_height (some (2, 100)) (pruned_node 2 quarters) (date 864000000000000))
resolve_to_height-EndsDay_example =
    resolve_to_height-EndsDay 2 100 quarters (λ a b h. omega arith) 864000000000000 (ground arith)
      (ground arith) (ground arith)

-- The day from block 40 to block 43, on a node that has gone on, and on one that is at block 42 of it.
day_over :
    resolve_to_height (some (2, 100)) (pruned_node 2 quarters) (date 864000000000000)
    ≡ some (resolved 43)
unfolding resolve_to_height find_first_block_at_or_after narrow
day_over = refl

day_running :
    resolve_to_height (some (2, 42)) (pruned_node 2 quarters) (date 864000000000000)
    ≡ some (resolved 41)
unfolding resolve_to_height find_first_block_at_or_after narrow
day_running = refl
