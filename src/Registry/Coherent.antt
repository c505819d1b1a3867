-- ===== src/Registry/Coherent.antt =====
-- The memoised views never show the rules of an earlier registration.
use slopsentinel.Base.{
  ℕ, zero, suc, ◌+◌, ◌≤◌, Text, text_eq, nat_eq, List, [], ◌∷◌, Option, none, some, Bool, ◌≡◌, refl,
  sym, ap, subst, arith, All, take, select,
}
use mathlib.Core.Option.{none-ne-some}
use slopsentinel.Types.{RuleMeta}
use slopsentinel.Dict.{Dict, lookup}
use slopsentinel.Registry.{
  ok, Registry, initial, Memo, memo_find, memo_store, memo_call, index_by_id, index_meta, merged,
  all_rules, rule_meta_by_id, rule_by_id, set_extra_rules, meta_call, rule_call,
}
use slopsentinel.Registry.Register.{set_extra_rules_state}

module _ {V : Type 0} where
  -- No entry of a later generation, and an entry of this generation holds what is true now.
  abbrev pub IsFreshEntry : ℕ → V → ℕ × V → Type 0
  IsFreshEntry generation fresh (g, v) = (g ≤ generation) × (g ≡ generation → v ≡ fresh)

  abbrev pub IsFresh : ℕ → V → Memo V → Type 0
  IsFresh generation fresh = All (IsFreshEntry generation fresh)

  All-select {κ} :
      (P : ℕ × V → Type κ) (p : ℕ × V → Bool) (m : Memo V) → All P m → All P (select p m)
  All-select P p [] h = tt
  All-select P p (e ∷ m) (h, hs) = ground (arith, All-select P p m hs)

  All-take {κ} : (P : ℕ × V → Type κ) (n : ℕ) (m : Memo V) → All P m → All P (take n m)
  All-take P zero m h = tt
  All-take P (suc n) [] h = tt
  All-take P (suc n) (e ∷ m) (h, hs) = (h, All-take P n m hs)

  memo_find-IsFresh :
      (g : ℕ) (fresh v : V) (m : Memo V) → IsFresh g fresh m → memo_find g m ≡ some v → v ≡ fresh
  unfolding memo_find
  memo_find-IsFresh g fresh v [] h p = absurd (none-ne-some v p)
  memo_find-IsFresh g fresh v ((j, w) ∷ m) ((low, now), hs) p =
      ground (arith, memo_find-IsFresh g fresh v m hs)

  memo_store-IsFresh :
      (g : ℕ) (fresh : V) (m : Memo V) (o : Option V)
      → IsFresh g fresh m
      → memo_find g m ≡ o
      → ((memo_store g fresh o m).0 ≡ fresh) × IsFresh g fresh (memo_store g fresh o m).1
  memo_store-IsFresh g fresh m none h p =
      (refl, All-take (IsFreshEntry g fresh) 4 ((g, fresh) ∷ m) ((omega arith, λ _. refl), h))
  memo_store-IsFresh g fresh m (some v) h p =
      let same = memo_find-IsFresh g fresh v m h p in
      (same, ((omega arith, λ _. same), All-select (IsFreshEntry g fresh) _ m h))

  IsFresh-next :
      (g : ℕ) (fresh later : V) (m : Memo V) → IsFresh g fresh m → IsFresh (g + 1) later m
  IsFresh-next g fresh later [] h = tt
  IsFresh-next g fresh later ((j, v) ∷ m) ((low, now), hs) =
      ((omega arith, λ p. absurd (omega arith)), IsFresh-next g fresh later m hs)

module _ {R : Type 0} (meta : R → RuleMeta) where
  -- The rules of a registry at this moment.
  abbrev pub current : Registry R → List R
  current s = merged meta s.builtin s.extra_rules

  -- The states that calls of the module's functions lead to.
  pub data Reachable : Registry R → Type 0 where
    started : (builtin : List R) → Reachable (initial builtin)
    registered :
        (s t : Registry R) (rules : List R)
        → Reachable s
        → set_extra_rules meta s rules ≡ ok t
        → Reachable t
    asked_all : (s : Registry R) → Reachable s → Reachable (all_rules meta s).1
    asked_meta : (s : Registry R) → Reachable s → Reachable (rule_meta_by_id meta s).1
    asked_rule :
        (s : Registry R) (rule_id : Text) → Reachable s → Reachable (rule_by_id meta s rule_id).1

  pub record IsCoherent (s : Registry R) : Type 0 where
    pub all_fresh : IsFresh s.extra_generation (current s) s.all_memo
    pub meta_fresh : IsFresh s.extra_generation (index_meta meta (current s) []) s.meta_memo
    pub rule_fresh : IsFresh s.extra_generation (index_by_id meta (current s) []) s.rule_memo

  all_rules-IsCoherent :
      (s : Registry R)
      → IsCoherent s
      → ((all_rules meta s).0 ≡ current s) × IsCoherent (all_rules meta s).1
  unfolding all_rules memo_call
  all_rules-IsCoherent s h =
      let (same, fresh) =
        memo_store-IsFresh s.extra_generation (current s) s.all_memo _ h.all_fresh refl in
      (same, record { all_fresh = fresh; meta_fresh = h.meta_fresh; rule_fresh = h.rule_fresh })

  meta_call-IsCoherent :
      (s : Registry R) (o : Option (Dict RuleMeta))
      → IsCoherent s
      → memo_find s.extra_generation s.meta_memo ≡ o
      → ((meta_call meta s.extra_generation o s).0 ≡ index_meta meta (current s) [])
        × IsCoherent (meta_call meta s.extra_generation o s).1
  unfolding all_rules
  meta_call-IsCoherent s (some found) h p =
      let fresh = index_meta meta (current s) [] in
      let same = memo_find-IsFresh s.extra_generation fresh found s.meta_memo h.meta_fresh p in
      let stored =
        memo_store-IsFresh s.extra_generation fresh s.meta_memo (some found) h.meta_fresh p in
      (same, record { all_fresh = h.all_fresh; meta_fresh = stored.1; rule_fresh = h.rule_fresh })
  meta_call-IsCoherent s none h p =
      let (same, inner) = all_rules-IsCoherent s h in
      let fresh = index_meta meta (current s) [] in
      let stored = memo_store-IsFresh s.extra_generation fresh s.meta_memo none h.meta_fresh p in
      (
        ap (λ rules. index_meta meta rules []) same,
        record {
          all_fresh = inner.all_fresh;
          meta_fresh =
              subst
                (λ rules.
                  IsFresh s.extra_generation fresh
                    (memo_store s.extra_generation (index_meta meta rules []) none s.meta_memo).1)
                (sym same) stored.1;
          rule_fresh = h.rule_fresh;
        },
      )

  rule_call-IsCoherent :
      (s : Registry R) (o : Option (Dict R))
      → IsCoherent s
      → memo_find s.extra_generation s.rule_memo ≡ o
      → ((rule_call meta s.extra_generation o s).0 ≡ index_by_id meta (current s) [])
        × IsCoherent (rule_call meta s.extra_generation o s).1
  unfolding all_rules
  rule_call-IsCoherent s (some found) h p =
      let fresh = index_by_id meta (current s) [] in
      let same = memo_find-IsFresh s.extra_generation fresh found s.rule_memo h.rule_fresh p in
      let stored =
        memo_store-IsFresh s.extra_generation fresh s.rule_memo (some found) h.rule_fresh p in
      (same, record { all_fresh = h.all_fresh; meta_fresh = h.meta_fresh; rule_fresh = stored.1 })
  rule_call-IsCoherent s none h p =
      let (same, inner) = all_rules-IsCoherent s h in
      let fresh = index_by_id meta (current s) [] in
      let stored = memo_store-IsFresh s.extra_generation fresh s.rule_memo none h.rule_fresh p in
      (
        ap (λ rules. index_by_id meta rules []) same,
        record {
          all_fresh = inner.all_fresh;
          meta_fresh = h.meta_fresh;
          rule_fresh =
              subst
                (λ rules.
                  IsFresh s.extra_generation fresh
                    (memo_store s.extra_generation (index_by_id meta rules []) none s.rule_memo).1)
                (sym same) stored.1;
        },
      )

  registered-IsCoherent :
      (s t : Registry R) (d : Dict R)
      → IsCoherent s
      → t ≡ record s { extra_rules = d; extra_generation = s.extra_generation + 1 }
      → IsCoherent t
  registered-IsCoherent s t d h p = subst IsCoherent (sym p) (record {
    all_fresh = IsFresh-next _ _ _ s.all_memo h.all_fresh;
    meta_fresh = IsFresh-next _ _ _ s.meta_memo h.meta_fresh;
    rule_fresh = IsFresh-next _ _ _ s.rule_memo h.rule_fresh;
  })

  Reachable-IsCoherent : (s : Registry R) → Reachable s → IsCoherent s
  unfolding initial rule_meta_by_id rule_by_id
  Reachable-IsCoherent _ (started builtin) = record {
    all_fresh = tt;
    meta_fresh = tt;
    rule_fresh = tt;
  }
  Reachable-IsCoherent _ (registered s t rules r p) =
      let (d, q) = set_extra_rules_state meta s t rules p in
      registered-IsCoherent s t d (Reachable-IsCoherent s r) q
  Reachable-IsCoherent _ (asked_all s r) = (all_rules-IsCoherent s (Reachable-IsCoherent s r)).1
  Reachable-IsCoherent _ (asked_meta s r) =
      (meta_call-IsCoherent s _ (Reachable-IsCoherent s r) refl).1
  Reachable-IsCoherent _ (asked_rule s rule_id r) =
      (rule_call-IsCoherent s _ (Reachable-IsCoherent s r) refl).1

  -- However registrations and questions have been interleaved, the memoised functions answer from
  -- the rules registered now: `all_rules` is their merged, sorted list, and the two maps by id are
  -- those of that list.
  pub views_current :
      (s : Registry R) (rule_id : Text)
      → Reachable s
      → ((all_rules meta s).0 ≡ current s)
        × ((rule_meta_by_id meta s).0 ≡ index_meta meta (current s) [])
        × ((rule_by_id meta s rule_id).0 ≡ lookup rule_id (index_by_id meta (current s) []))
  unfolding rule_meta_by_id rule_by_id
  views_current s rule_id r =
      let h = Reachable-IsCoherent s r in
      (
        (all_rules-IsCoherent s h).0,
        (meta_call-IsCoherent s _ h refl).0,
        ap (lookup rule_id) (rule_call-IsCoherent s _ h refl).0,
      )
