-- ===== src/Registry/Register.antt =====
-- What a registration that is not refused has checked.
use slopsentinel.Base.{
  ◌+◌, Text, text_eq, List, [], ◌∷◌, Option, none, some, Bool, true, false, not, ◌||◌, ◌==◌,
  if◌then◌else◌, ◌≡◌, refl, sym, ap, ◌∙◌, subst, arith, Bool-cases, inl, inr, All, contains, strip,
  upper, map,
}
use mathlib.Core.Option.{none-ne-some}
use slopsentinel.Types.{RuleMeta}
use slopsentinel.Dict.{Dict, lookup, insert, lookup-insert}
use slopsentinel.Registry.{
  Registered, ok, raise, RegistryError, Registry, is_rule_id, id_of, check_rule, check_all, added,
  replaced, and_rest, set_extra_rules,
}

IsRaise : {A : Type 0} → Registered A → Type 0
IsRaise (ok a) = ⊥
IsRaise (raise e) = Unit

ok_injective : {A : Type 0} (a b : A) → ok a ≡ ok b → a ≡ b
ok_injective a b p = cc

canonical_holds :
    (i : Text) → (not (i == strip i) || not (i == upper i)) ≡ false → (strip i ≡ i) × (upper i ≡ i)
canonical_holds i p = ground arith

not-false : (b : Bool) → not b ≡ false → b ≡ true
not-false b p = ground arith

guarded :
    {A : Type 0} (b : Bool) (e : RegistryError) (x : Registered A) (a : A)
    → (if b then raise e else x) ≡ ok a
    → (b ≡ false) × (x ≡ ok a)
unfolding IsRaise
guarded true e x a p = absurd (subst IsRaise p tt)
guarded false e x a p = (refl, p)

module _ {R : Type 0} (meta : R → RuleMeta) where
  -- A rule whose id is canonical, well formed and of no built-in rule.
  abbrev pub IsRegistrable : List Text → R → Type 0
  IsRegistrable builtin_ids r =
      (is_rule_id (id_of meta r) ≡ true)
      × (strip (id_of meta r) ≡ id_of meta r)
      × (upper (id_of meta r) ≡ id_of meta r)
      × (contains builtin_ids (id_of meta r) ≡ false)

  added_cases :
      (o : Option R) (r : R) (d e : Dict R)
      → added meta o r d ≡ ok e
      → (o ≡ none) × (e ≡ insert (id_of meta r) r d)
  unfolding IsRaise
  added_cases none r d e p = (refl, sym (ok_injective _ _ p))
  added_cases (some x) r d e p = absurd (subst IsRaise p tt)

  check_rule_cases :
      (ids : List Text) (r : R) (d e : Dict R)
      → check_rule meta ids r d ≡ ok e
      → IsRegistrable ids r × (lookup (id_of meta r) d ≡ none) × (e ≡ insert (id_of meta r) r d)
  unfolding check_rule
  check_rule_cases ids r d e p =
      let (canonical, p1) = guarded _ _ _ _ p in
      let (valid, p2) = guarded _ _ _ _ p1 in
      let (free, p3) = guarded _ _ _ _ p2 in
      let (new, same) = added_cases _ r d e p3 in
      let (stripped, uppered) = canonical_holds (id_of meta r) canonical in
      ((not-false _ valid, stripped, uppered, free), new, same)

  check_all-cons :
      (ids : List Text) (r : R) (rules : List R) (o : Registered (Dict R)) (e : Dict R)
      → and_rest meta o (check_all meta ids rules) ≡ ok e
      → (d : Dict R) × (o ≡ ok d) × (check_all meta ids rules d ≡ ok e)
  unfolding IsRaise
  check_all-cons ids r rules (ok d) e p = (d, refl, p)
  check_all-cons ids r rules (raise x) e p = absurd (subst IsRaise p tt)

  absent :
      (i k : Text) (ids : List Text)
      → contains (i ∷ ids) k ≡ false
      → ((i == k) ≡ false) × (contains ids k ≡ false)
  absent i k ids h = ground arith

  kept :
      (i k : Text) (r x : R) (d : Dict R)
      → lookup i d ≡ none
      → lookup k d ≡ some x
      → (if i == k then some r else lookup k d) ≡ some x
  kept i k r x d new h = elim (Bool-cases (i == k)) [
    | inr other ↦ rw other h
    | inl same ↦
        let p : i ≡ k = ground arith in
        absurd (none-ne-some x (sym new ∙ ap (λ j. lookup j d) p ∙ h))
  ]

  -- What the table holds already, it keeps: a second rule with that id is refused.
  check_all-keeps :
      (ids : List Text) (rules : List R) (d e : Dict R) (k : Text) (x : R)
      → check_all meta ids rules d ≡ ok e
      → lookup k d ≡ some x
      → lookup k e ≡ some x
  unfolding check_all
  check_all-keeps ids [] d e k x p h = subst (λ f. lookup k f ≡ some x) (ok_injective _ _ p) h
  check_all-keeps ids (r ∷ rules) d e k x p h =
      let (d1, q, rest) = check_all-cons ids r rules _ e p in
      let (_, new, same) = check_rule_cases ids r d d1 q in
      let there : lookup k d1 ≡ some x =
        rw (same, lookup-insert (id_of meta r) k r d) (kept (id_of meta r) k r x d new h) in
      check_all-keeps ids rules d1 e k x rest there

  check_all_lem :
      (ids : List Text) (rules : List R) (d e : Dict R)
      → check_all meta ids rules d ≡ ok e
      → All (λ r. IsRegistrable ids r × (lookup (id_of meta r) e ≡ some r)) rules
  unfolding check_all
  check_all_lem ids [] d e p = tt
  check_all_lem ids (r ∷ rules) d e p =
      let (d1, q, rest) = check_all-cons ids r rules _ e p in
      let (good, new, same) = check_rule_cases ids r d d1 q in
      let stored : lookup (id_of meta r) d1 ≡ some r =
        rw (same, lookup-insert (id_of meta r) (id_of meta r) r d) (ground arith) in
      (
        (good, check_all-keeps ids rules d1 e (id_of meta r) r rest stored),
        check_all_lem ids rules d1 e rest,
      )

  -- Nothing else is in the table.
  check_all-only :
      (ids : List Text) (rules : List R) (d e : Dict R) (k : Text)
      → check_all meta ids rules d ≡ ok e
      → contains (map (id_of meta) rules) k ≡ false
      → lookup k e ≡ lookup k d
  unfolding check_all
  check_all-only ids [] d e k p h = rw (ok_injective _ _ p) refl
  check_all-only ids (r ∷ rules) d e k p h =
      let (d1, q, rest) = check_all-cons ids r rules _ e p in
      let (_, new, same) = check_rule_cases ids r d d1 q in
      let (apart, later) = absent (id_of meta r) k _ h in
      check_all-only ids rules d1 e k rest later
      ∙ rw (same, lookup-insert (id_of meta r) k r d, apart) refl

  replaced_cases :
      (s t : Registry R) (o : Registered (Dict R))
      → replaced meta s o ≡ ok t
      → (d : Dict R) × (o ≡ ok d)
        × (t.extra_rules ≡ d)
        × (t.extra_generation ≡ s.extra_generation + 1)
        × (t.builtin ≡ s.builtin)
  unfolding IsRaise
  replaced_cases s t (ok d) p =
      let q = ok_injective _ _ p in
      (
        d,
        refl,
        ap (λ (u : Registry R). u.extra_rules) (sym q),
        ap (λ (u : Registry R). u.extra_generation) (sym q),
        ap (λ (u : Registry R). u.builtin) (sym q),
      )
  replaced_cases s t (raise x) p = absurd (subst IsRaise p tt)

  replaced_state :
      (s t : Registry R) (o : Registered (Dict R))
      → replaced meta s o ≡ ok t
      → (d : Dict R) × (t ≡ record s { extra_rules = d; extra_generation = s.extra_generation + 1 })
  unfolding IsRaise
  replaced_state s t (ok d) p = (d, sym (ok_injective _ _ p))
  replaced_state s t (raise x) p = absurd (subst IsRaise p tt)

  pub set_extra_rules_state :
      (s t : Registry R) (rules : List R)
      → set_extra_rules meta s rules ≡ ok t
      → (d : Dict R) × (t ≡ record s { extra_rules = d; extra_generation = s.extra_generation + 1 })
  unfolding set_extra_rules
  set_extra_rules_state s t rules p = replaced_state s t _ p

  -- After `set_extra_rules` returns, the extra rules are the given ones and no others: each has a
  -- canonical, well-formed id that no built-in rule has and is found under it, and any other id
  -- is not found. The built-in rules are those before, and the generation is the next.
  pub set_extra_rules_lem :
      (s t : Registry R) (rules : List R)
      → set_extra_rules meta s rules ≡ ok t
      → All
          (λ r.
            IsRegistrable (map (id_of meta) s.builtin) r
            × (lookup (id_of meta r) t.extra_rules ≡ some r))
          rules
        × ((k : Text) → contains (map (id_of meta) rules) k ≡ false → lookup k t.extra_rules ≡ none)
        × (t.builtin ≡ s.builtin)
        × (t.extra_generation ≡ s.extra_generation + 1)
  unfolding set_extra_rules lookup
  set_extra_rules_lem s t rules p =
      let (d, q, same, next, builtin) = replaced_cases s t _ p in
      rw same
        (check_all_lem _ rules [] d q, λ k h. check_all-only _ rules [] d k q h, builtin, next)
