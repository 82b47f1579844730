-- ===== src/Paths/Tests.antt =====
-- The theorems on paths at paths with dots.
use d4x.Prelude.{none, codes, length, ◌≡◌}
use d4x.Paths.{normalize}
use d4x.Paths.Loop.{Settles, normalize-up, up_loop-Settles}

normalize-up_example : normalize 1000 (codes "/../etc") ≡ none
normalize-up_example = normalize-up 1000 (codes "etc")

up_loop-Settles_example : Settles (length (codes "/a/../b")) (codes "/a/../b")
up_loop-Settles_example = up_loop-Settles (codes "/a/../b")
