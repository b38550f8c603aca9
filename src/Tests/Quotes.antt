-- ===== src/Tests/Quotes.antt =====
-- The theorems on the market maker's quotes, at an index of 50,000.
use lcex.Prelude.{◌*◌, ◌≤◌, length}
use lcex.Prelude.Int.{pos, negsuc}
use lcex.Prelude.Text.{codes}
use lcex.Quotes.{build_grid}
use lcex.Quotes.Grid.{IsGrid, build_grid-IsGrid}

build_grid-IsGrid_example :
    IsGrid
      (codes "0.01")
      (build_grid 5000000000000 (pos 3) (pos 10) (negsuc 4) (pos 25) (codes "0.01"))
    × (length (build_grid 5000000000000 (pos 3) (pos 10) (negsuc 4) (pos 25) (codes "0.01"))
        ≤ 2 * 3)
build_grid-IsGrid_example =
    build_grid-IsGrid 5000000000000 (pos 3) (pos 10) (negsuc 4) (pos 25) (codes "0.01")
