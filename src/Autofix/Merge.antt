-- ===== src/Autofix/Merge.antt =====
-- src/slopsentinel/autofix.py: the union of planned removals and of planned replacements, and the
-- text that they leave.
use slopsentinel.Base.{
  ℕ, suc, ◌+◌, ◌-◌, min, max, Text, codes, text_eq, nat_eq, List, [], ◌∷◌, ◌++◌, Option, none, some,
  Bool, ◌&&◌, ◌||◌, not, ◌==◌, if◌then◌else◌, select, contains, length, take, leb, ltb, eqb, is_nil,
  ends_with, sort, text_leb, texts_leb,
}
use slopsentinel.Autofix.{LineRemoval, LineReplacement, line_at}
use slopsentinel.Autofix.Lines.{concat, range_incl}

-- The order of the sort key `(start_line, end_line, rule_ids)`.
unfoldable pub removal_leb : LineRemoval → LineRemoval → Bool
unfolding texts_leb
removal_leb r s =
    if eqb r.start_line s.start_line
    then if eqb r.end_line s.end_line
      then texts_leb r.rule_ids s.rule_ids
      else ltb r.end_line s.end_line
    else ltb r.start_line s.start_line

-- `set(ids)`
unfoldable pub distinct : List Text → List Text
unfolding text_eq
distinct [] = []
distinct (t ∷ ts) = let rest = distinct ts in if contains rest t then rest else t ∷ rest

-- `tuple(sorted(set(ids)))`
unfoldable pub sorted_ids : List Text → List Text
unfolding distinct sort text_leb
sorted_ids ids = sort text_leb (distinct ids)

unfoldable pub join_removals : LineRemoval → LineRemoval → LineRemoval
unfolding sorted_ids
join_removals prev removal = record {
  rule_ids = sorted_ids (prev.rule_ids ++ removal.rule_ids);
  start_line = min prev.start_line removal.start_line;
  end_line = max prev.end_line removal.end_line;
}

-- The loop of `_merge_removals`, with `merged[-1]`.
unfoldable pub merge_from : LineRemoval → List LineRemoval → List LineRemoval
unfolding join_removals
merge_from prev [] = prev ∷ []
merge_from prev (removal ∷ removals) =
    let joined = merge_from (join_removals prev removal) removals in
    let apart = merge_from removal removals in
    if leb removal.start_line (prev.end_line + 1) then joined else prev ∷ apart

unfoldable pub merge_sorted : List LineRemoval → List LineRemoval
unfolding merge_from
merge_sorted [] = []
merge_sorted (removal ∷ removals) = merge_from removal removals

-- `_merge_removals`
unfoldable pub merge_removals : List LineRemoval → List LineRemoval
unfolding merge_sorted sort removal_leb
merge_removals removals = merge_sorted (sort removal_leb removals)

-- `_flatten_removals`
unfoldable pub flatten_removals : List LineRemoval → List ℕ
unfolding range_incl
flatten_removals [] = []
flatten_removals (r ∷ rs) = range_incl r.start_line r.end_line ++ flatten_removals rs

-- `by_line`: the groups in the order in which `setdefault` makes them
unfoldable pub add_to_line :
    LineReplacement → List (ℕ × List LineReplacement) → List (ℕ × List LineReplacement)
unfolding nat_eq
add_to_line rep [] = (rep.line, rep ∷ []) ∷ []
add_to_line rep ((n, group) ∷ groups) =
    if n == rep.line then (n, group ++ rep ∷ []) ∷ groups else (n, group) ∷ add_to_line rep groups

unfoldable pub group_by_line :
    List LineReplacement → List (ℕ × List LineReplacement) → List (ℕ × List LineReplacement)
unfolding add_to_line
group_by_line [] groups = groups
group_by_line (rep ∷ reps) groups = group_by_line reps (add_to_line rep groups)

unfoldable pub insertion_weight : LineReplacement → ℕ
unfolding text_eq
insertion_weight rep =
    if contains rep.rule_ids (codes "E09")
    then 0
    else if contains rep.rule_ids (codes "E06")
    then 10
    else 50

-- Whether a replacement puts text before the line and keeps the line.
unfoldable pub is_insertion : Text → LineReplacement → Bool
unfolding ends_with text_eq
is_insertion original_line rep =
    not (is_nil original_line)
    && ends_with rep.content original_line
    && not (rep.content == original_line)

-- `rep.content[: -len(original_line)]` of a content that ends with the line, which is not empty
abbrev pub prefix_of : Text → LineReplacement → Text
prefix_of original_line rep = take (length rep.content - length original_line) rep.content

-- The loop over the insertions: each prefix once.
unfoldable pub add_prefixes : Text → List Text → List LineReplacement → List Text
unfolding text_eq
add_prefixes original_line prefixes [] = prefixes
add_prefixes original_line prefixes (rep ∷ reps) =
    let prefix = prefix_of original_line rep in
    add_prefixes original_line
      (if not (is_nil prefix) && not (contains prefixes prefix)
        then prefixes ++ prefix ∷ []
        else prefixes)
      reps

-- The content of the last replacement that rewrites the line, or else the line.
unfoldable pub base_content : Text → List LineReplacement → Text
base_content original_line [] = original_line
base_content original_line (rep ∷ reps) = base_content rep.content reps

abbrev pub group_ids : List LineReplacement → List Text
group_ids [] = []
group_ids (rep ∷ reps) = rep.rule_ids ++ group_ids reps

unfoldable pub last_of : LineReplacement → List LineReplacement → LineReplacement
last_of rep [] = rep
last_of rep (next ∷ reps) = last_of next reps

-- One round of the second loop of `_merge_replacements`; a group is never empty.
unfoldable pub merge_group : List Text → ℕ × List LineReplacement → List LineReplacement
unfolding is_insertion insertion_weight add_prefixes base_content concat sort sorted_ids last_of
    line_at
merge_group lines (line_no, []) = []
merge_group lines (line_no, rep ∷ []) = rep ∷ []
merge_group lines (line_no, rep ∷ next ∷ reps) =
    let group = rep ∷ next ∷ reps in
    let original_line = line_at lines line_no in
    let insertions = select (is_insertion original_line) group in
    let full = select (λ r. not (is_insertion original_line r)) group in
    let ordered = sort (λ a b. leb (insertion_weight a) (insertion_weight b)) insertions in
    if leb line_no 0 || ltb (length lines) line_no
    then last_of next reps ∷ []
    else record {
      rule_ids = sorted_ids (group_ids group);
      line = line_no;
      content = concat (add_prefixes original_line [] ordered) ++ base_content original_line full;
    }
      ∷ []

unfoldable pub merge_groups : List Text → List (ℕ × List LineReplacement) → List LineReplacement
unfolding merge_group
merge_groups lines [] = []
merge_groups lines (group ∷ groups) = merge_group lines group ++ merge_groups lines groups

-- `_merge_replacements`
unfoldable pub merge_replacements : List Text → List LineReplacement → List LineReplacement
unfolding merge_groups group_by_line sort
merge_replacements lines replacements =
    merge_groups lines
      (sort (λ (a : ℕ × List LineReplacement) b. leb a.0 b.0) (group_by_line replacements []))

-- `replacement_map.get(idx)`: of two replacements of a line the last one stays
unfoldable pub replacement_for : ℕ → List LineReplacement → Option Text
unfolding nat_eq
replacement_for idx [] = none
replacement_for idx (r ∷ rs) = elim (replacement_for idx rs) [
  | none ↦ if r.line == idx then some r.content else none
  | some content ↦ some content
]

-- The loop of `_apply_fixes_to_text` that makes `updated_lines`.
unfoldable pub updated_lines : List ℕ → List LineReplacement → ℕ → List Text → List Text
unfolding replacement_for nat_eq
updated_lines to_remove replacements idx [] = []
updated_lines to_remove replacements idx (line ∷ lines) =
    let rest = updated_lines to_remove replacements (suc idx) lines in
    if contains to_remove idx
    then rest
    else (elim (replacement_for idx replacements) [ none ↦ line | some content ↦ content ]) ∷ rest
