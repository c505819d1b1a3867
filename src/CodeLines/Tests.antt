-- ===== src/CodeLines/Tests.antt =====
-- The lines of a small file, and runs of numbers.
use slopsentinel.Base.{
  Text, codes, text_eq, nat_eq, pair_eq, List, [], ◌∷◌, false, ◌||◌, ◌&&◌, ◌≡◌, refl, contains, map,
}
use slopsentinel.CodeLines.{iter_comment_lines, iter_code_lines, consecutive_runs, comment_step}
use slopsentinel.CodeLines.Partition.{numbered, comment_code_partition}

abbrev lines : List Text
lines = codes "/* a" ∷ codes "x = 1" ∷ codes "*/" ∷ codes "" ∷ codes "y = 2" ∷ codes "  # b" ∷ []

comment_lines : map (λ e. e.0) (iter_comment_lines lines) ≡ 1 ∷ 2 ∷ 3 ∷ 6 ∷ []
unfolding iter_comment_lines comment_step
comment_lines = refl

comment_code_partition_example :
    ((contains (iter_comment_lines lines) (2, codes "x = 1")
        || contains (iter_code_lines lines) (2, codes "x = 1"))
      ≡ contains (numbered 1 lines) (2, codes "x = 1"))
    × ((contains (iter_comment_lines lines) (2, codes "x = 1")
          && contains (iter_code_lines lines) (2, codes "x = 1"))
        ≡ false)
comment_code_partition_example = comment_code_partition lines 2 (codes "x = 1")

some_runs : consecutive_runs (3 ∷ 4 ∷ 5 ∷ 9 ∷ 9 ∷ []) ≡ (3, 3) ∷ (9, 1) ∷ (9, 1) ∷ []
unfolding consecutive_runs
some_runs = refl
