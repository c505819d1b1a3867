-- ===== src/Registry.antt =====
-- src/slopsentinel/rules/registry.py: the rules that are known, the registration of extra rules, and
-- the memoised views of them. The rules are any type with a metadata record.
mod Register
mod Coherent
mod Tests
use slopsentinel.Base.{
  ℕ, zero, suc, ◌+◌, Text, codes, text_eq, nat_eq, List, [], ◌∷◌, ◌++◌, Option, none, some, Bool,
  true, false, ◌||◌, ◌&&◌, not, ◌==◌, if◌then◌else◌, leb, all, length, strip, upper, contains, map,
  take, sort, text_leb, select,
}
use slopsentinel.Types.{RuleMeta}
use slopsentinel.Dict.{Dict, lookup, insert}

-- The reasons of the `RuntimeError`s.
pub data RegistryError : Type 0 where
  not_canonical invalid_id conflicts_with_builtin duplicate_id : RegistryError

pub data Registered (A : Type 0) : Type 0 where
  ok : A → Registered A
  raise : RegistryError → Registered A

-- `_RULE_ID_RE.match` of a text without white space at its ends
unfoldable pub is_rule_id : Text → Bool
is_rule_id [] = false
is_rule_id (c ∷ s) =
    leb b'A' c && leb c b'Z' && leb 2 (length s) && all (λ d. leb b'0' d && leb d b'9') s

-- `lru_cache(maxsize=4)`: the entries, the one used last in front.
abbrev pub Memo : Type 0 → Type 0
Memo V = List (ℕ × V)

module _ {V : Type 0} where
  unfoldable pub memo_find : ℕ → Memo V → Option V
  unfolding nat_eq
  memo_find k [] = none
  memo_find k ((j, v) ∷ m) = if j == k then some v else memo_find k m

  abbrev pub memo_store : ℕ → V → Option V → Memo V → V × Memo V
  memo_store k fresh (some v) m = (v, (k, v) ∷ select (λ e. not (e.0 == k)) m)
  memo_store k fresh none m = (fresh, take 4 ((k, fresh) ∷ m))

  -- A call with the argument `k`, whose body would return `fresh`.
  unfoldable pub memo_call : ℕ → V → Memo V → V × Memo V
  unfolding memo_find
  memo_call k fresh m = memo_store k fresh (memo_find k m) m

module _ {R : Type 0} (meta : R → RuleMeta) where
  abbrev pub id_of : R → Text
  id_of r = (meta r).rule_id

  -- `{r.meta.rule_id: r for r in rules}`
  unfoldable pub index_by_id : List R → Dict R → Dict R
  unfolding insert
  index_by_id [] d = d
  index_by_id (r ∷ rules) d = index_by_id rules (insert (id_of r) r d)

  -- `tuple(by_id[k] for k in sorted(by_id))`
  unfoldable pub in_order : Dict R → List R
  unfolding sort text_leb
  in_order by_id = map (λ e. e.1) (sort (λ a b. text_leb a.0 b.0) by_id)

  abbrev pub added : Option R → R → Dict R → Registered (Dict R)
  added (some r) rule by_id = raise duplicate_id
  added none rule by_id = ok (insert (id_of rule) rule by_id)

  -- The checks of one rule; `builtin_ids` is empty where `builtin_rules` runs them.
  unfoldable pub check_rule : List Text → R → Dict R → Registered (Dict R)
  unfolding strip upper text_eq is_rule_id
  check_rule builtin_ids rule by_id =
      if not (id_of rule == strip (id_of rule)) || not (id_of rule == upper (id_of rule))
      then raise not_canonical
      else if not (is_rule_id (id_of rule))
      then raise invalid_id
      else if contains builtin_ids (id_of rule)
      then raise conflicts_with_builtin
      else added (lookup (id_of rule) by_id) rule by_id

  abbrev pub and_rest : Registered (Dict R) → (Dict R → Registered (Dict R)) → Registered (Dict R)
  and_rest (ok by_id) rest = rest by_id
  and_rest (raise e) rest = raise e

  -- The loop over the rules.
  unfoldable pub check_all : List Text → List R → Dict R → Registered (Dict R)
  unfolding check_rule
  check_all builtin_ids [] by_id = ok by_id
  check_all builtin_ids (rule ∷ rules) by_id =
      and_rest (check_rule builtin_ids rule by_id) (check_all builtin_ids rules)

  abbrev ordered : Registered (Dict R) → Registered (List R)
  ordered (ok by_id) = ok (in_order by_id)
  ordered (raise e) = raise e

  -- `builtin_rules`, from the rules of the families
  unfoldable pub builtin_rules : List R → Registered (List R)
  unfolding check_all in_order
  builtin_rules families = ordered (check_all [] families [])

-- The module's globals: `builtin` is what `builtin_rules` returns, and each of the other memos
-- is that of a function with `lru_cache`.
pub record Registry (R : Type 0) : Type 0 where
  pub builtin : List R
  pub extra_rules : Dict R
  pub extra_generation : ℕ
  pub all_memo : Memo (List R)
  pub meta_memo : Memo (Dict RuleMeta)
  pub rule_memo : Memo (Dict R)

unfoldable pub initial : {R : Type 0} → List R → Registry R
initial builtin = record {
  builtin = builtin;
  extra_rules = [];
  extra_generation = 0;
  all_memo = [];
  meta_memo = [];
  rule_memo = [];
}

module _ {R : Type 0} (meta : R → RuleMeta) where
  abbrev pub replaced : Registry R → Registered (Dict R) → Registered (Registry R)
  replaced s (ok by_id) =
      ok (record s { extra_rules = by_id; extra_generation = s.extra_generation + 1 })
  replaced s (raise e) = raise e

  unfoldable pub set_extra_rules : Registry R → List R → Registered (Registry R)
  unfolding check_all
  set_extra_rules s rules = replaced s (check_all meta (map (id_of meta) s.builtin) rules [])

  -- The body of `_all_rules`.
  unfoldable pub merged : List R → Dict R → List R
  unfolding index_by_id in_order
  merged builtin extra = in_order meta (index_by_id meta (builtin ++ map (λ e. e.1) extra) [])

  unfoldable pub all_rules : Registry R → List R × Registry R
  unfolding memo_call merged
  all_rules s =
      let (rules, memo) =
        memo_call s.extra_generation (merged s.builtin s.extra_rules) s.all_memo in
      (rules, record s { all_memo = memo })

  -- `{r.meta.rule_id: r.meta for r in rules}`
  unfoldable pub index_meta : List R → Dict RuleMeta → Dict RuleMeta
  unfolding insert
  index_meta [] d = d
  index_meta (r ∷ rules) d = index_meta rules (insert (id_of meta r) (meta r) d)

  abbrev pub meta_call : ℕ → Option (Dict RuleMeta) → Registry R → Dict RuleMeta × Registry R
  meta_call generation (some found) s =
      (found, record s { meta_memo = (memo_store generation found (some found) s.meta_memo).1 })
  meta_call generation none s =
      let (rules, t) = all_rules s in
      let fresh = index_meta rules [] in
      (fresh, record t { meta_memo = (memo_store generation fresh none t.meta_memo).1 })

  -- `rule_meta_by_id`: only a call whose result is not kept asks `all_rules`.
  unfoldable pub rule_meta_by_id : Registry R → Dict RuleMeta × Registry R
  unfolding memo_find all_rules index_meta
  rule_meta_by_id s = meta_call s.extra_generation (memo_find s.extra_generation s.meta_memo) s

  abbrev pub rule_call : ℕ → Option (Dict R) → Registry R → Dict R × Registry R
  rule_call generation (some found) s =
      (found, record s { rule_memo = (memo_store generation found (some found) s.rule_memo).1 })
  rule_call generation none s =
      let (rules, t) = all_rules s in
      let fresh = index_by_id meta rules [] in
      (fresh, record t { rule_memo = (memo_store generation fresh none t.rule_memo).1 })

  unfoldable pub rule_by_id : Registry R → Text → Option R × Registry R
  unfolding memo_find all_rules index_by_id lookup
  rule_by_id s rule_id =
      let (found, t) = rule_call s.extra_generation (memo_find s.extra_generation s.rule_memo) s in
      (lookup rule_id found, t)
