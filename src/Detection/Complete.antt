-- ===== src/Detection/Complete.antt =====
-- A full detection loses nothing that it should report.
use slopsentinel.Base.{
  Text, text_eq, List, [], ◌∷◌, ◌++◌, Option, none, some, Bool, true, false, not, contains, select,
  ◌≡◌, refl, sym, ap, ◌∙◌, subst, ◌⊎◌, inl, inr, Bool-cases,
}
use slopsentinel.Types.{Severity, Violation}
use slopsentinel.Config.{RulesConfig, SlopSentinelConfig}
use slopsentinel.Config.Enabled.{compute_enabled_rule_ids}
use slopsentinel.Detection.{
  FileContext, Rule, rules_config_for, override_severity, with_severity, apply_overrides,
  suppressed_in, rule_ids, check_rules, detect_file_full,
}

-- The element is one of the list.
abbrev pub Occurs : {A : Type 0} → A → List A → Type 0
Occurs a [] = ⊥
Occurs a (x ∷ xs) = (a ≡ x) ⊎ Occurs a xs

module _ {A : Type 0} where
  Occurs-left : (a : A) (xs ys : List A) → Occurs a xs → Occurs a (xs ++ ys)
  Occurs-left a [] ys h = absurd h
  Occurs-left a (x ∷ xs) ys (inl p) = inl p
  Occurs-left a (x ∷ xs) ys (inr h) = inr (Occurs-left a xs ys h)

  Occurs-right : (a : A) (xs ys : List A) → Occurs a ys → Occurs a (xs ++ ys)
  Occurs-right a [] ys h = h
  Occurs-right a (x ∷ xs) ys h = inr (Occurs-right a xs ys h)

  Occurs-select :
      (p : A → Bool) (a : A) (xs : List A) → p a ≡ true → Occurs a xs → Occurs a (select p xs)
  Occurs-select p a [] h k = absurd k
  Occurs-select p a (x ∷ xs) h (inl e) = rw (sym (ap p e) ∙ h) (inl e)
  Occurs-select p a (x ∷ xs) h (inr k) = elim (Bool-cases (p x)) [
    | inl kept ↦ rw kept (inr (Occurs-select p a xs h k))
    | inr gone ↦ rw gone (Occurs-select p a xs h k)
  ]

-- A violation with the severity that is set for its rule, if there is one.
abbrev pub adjusted : Option Severity → Violation → Violation
adjusted none v = v
adjusted (some s) v = record v { severity = s }

with_severity-Occurs :
    (o : Option Severity) (v : Violation) (vs : List Violation)
    → Occurs v vs
    → Occurs (adjusted o v) (with_severity o vs)
unfolding with_severity
with_severity-Occurs none v [] h = absurd h
with_severity-Occurs (some s) v [] h = absurd h
with_severity-Occurs none v (w ∷ vs) h = h
with_severity-Occurs (some s) v (w ∷ vs) (inl e) = inl (ap (adjusted (some s)) e)
with_severity-Occurs (some s) v (w ∷ vs) (inr h) = inr (with_severity-Occurs (some s) v vs h)

suppressed_in-adjusted :
    (ctx : FileContext) (o : Option Severity) (v : Violation)
    → suppressed_in ctx (adjusted o v) ≡ suppressed_in ctx v
unfolding suppressed_in
suppressed_in-adjusted ctx none v = refl
suppressed_in-adjusted ctx (some s) v = refl

module _ (rules : RulesConfig) (enabled : List Text) (ctx : FileContext) (r : Rule)
    (v : Violation) where
  reported_by :
      Occurs v (r.check_file ctx)
      → suppressed_in ctx v ≡ false
      → Occurs (adjusted (override_severity rules r.meta.rule_id) v) (
          select
            (λ w. not (suppressed_in ctx w))
            (apply_overrides rules r.meta.rule_id (r.check_file ctx)))
  unfolding apply_overrides
  reported_by found shown =
      let o = override_severity rules r.meta.rule_id in
      Occurs-select (λ w. not (suppressed_in ctx w)) (adjusted o v) _
        (rw (suppressed_in-adjusted ctx o v, shown) refl)
        (with_severity-Occurs o v (r.check_file ctx) found)

  check_rules-Occurs :
      (rs : List Rule)
      → Occurs r rs
      → contains enabled r.meta.rule_id ≡ true
      → Occurs v (r.check_file ctx)
      → suppressed_in ctx v ≡ false
      → Occurs
          (adjusted (override_severity rules r.meta.rule_id) v)
          (check_rules rules enabled ctx rs)
  unfolding check_rules
  check_rules-Occurs [] among on found shown = absurd among
  check_rules-Occurs (q ∷ rs) (inr later) on found shown =
      elim (Bool-cases (contains enabled q.meta.rule_id)) [
        | inr off ↦ rw off (check_rules-Occurs rs later on found shown)
        | inl also ↦ rw also (Occurs-right _ _ _ (check_rules-Occurs rs later on found shown))
      ]
  check_rules-Occurs (q ∷ rs) (inl same) on found shown =
      subst
        (λ (t : Rule).
          Occurs (adjusted (override_severity rules r.meta.rule_id) v)
            (check_rules rules enabled ctx (t ∷ rs)))
        same (rw on (Occurs-left _ _ _ (reported_by found shown)))

-- Each violation that a rule of the list raises in a file, the rule being enabled for the file and no
-- directive suppressing the violation, is reported, with the severity that the file's configuration
-- sets for the rule, if it sets one.
pub detect_file_full-Occurs :
    (config : SlopSentinelConfig) (rs : List Rule) (ctx : FileContext) (r : Rule) (v : Violation)
    → Occurs r rs
    → contains
        (compute_enabled_rule_ids (rules_config_for config ctx.relative_path) (some (rule_ids rs)))
        r.meta.rule_id
      ≡ true
    → Occurs v (r.check_file ctx)
    → suppressed_in ctx v ≡ false
    → Occurs
        (adjusted (override_severity (rules_config_for config ctx.relative_path) r.meta.rule_id) v)
        (detect_file_full config rs ctx)
unfolding detect_file_full
detect_file_full-Occurs config rs ctx r v among on found shown =
    check_rules-Occurs (rules_config_for config ctx.relative_path) _ ctx r v rs among on found shown
