-- ===== src/Baseline/RoundTrip.antt =====
-- A baseline that is saved and loaded again.
use slopsentinel.Base.{
  Text, text_eq, List, [], ◌∷◌, ◌++◌, some, ◌≡◌, refl, sym, ap, ◌∙◌, sort, All, All-sort, map,
  is_nil, true, false, strip, int_eq, Bool-cases, inl, inr,
}
use native.Mathlib.Decide.{ℕ_discrete}
use slopsentinel.Json.{to_list-items_of}
use slopsentinel.Baseline.{FileEntry, RepoEntry, Baseline, canonical}
use slopsentinel.Baseline.File.{
  ok, add_items, add_item, entry_json, message_json, entry_leb, message_leb, save_baseline,
  load_baseline,
}

-- An entry as `build_baseline` makes it: a rule id in its canonical form, and a fingerprint without
-- blanks at its ends.
abbrev pub IsCanonical : Text → Type 0
IsCanonical rule_id = (canonical rule_id ≡ rule_id) × (is_nil rule_id ≡ false)

abbrev pub IsSavable : Baseline → Type 0
IsSavable b =
    All (λ (e : FileEntry). IsCanonical e.rule_id × (strip e.fingerprint ≡ e.fingerprint))
      b.file_entries
    × All (λ (e : RepoEntry). IsCanonical e.rule_id) b.repo_entries

eq_nil : (t : Text) → is_nil t ≡ true → t ≡ []
eq_nil [] h = refl
eq_nil (c ∷ t) h = cc

add_item-entry :
    (e : FileEntry) (b : Baseline)
    → IsCanonical e.rule_id
    → strip e.fingerprint ≡ e.fingerprint
    → add_item (entry_json e) b ≡ record b { file_entries = e ∷ b.file_entries }
unfolding add_item entry_json text_eq
add_item-entry e b (c, n) s = elim (Bool-cases (is_nil e.fingerprint)) [
  | inl blank ↦ rw (n, c, blank) (with_fingerprint [] (sym (eq_nil e.fingerprint blank)))
  | inr full ↦ rw (n, c, full) (with_fingerprint (strip e.fingerprint) s)
]
  where
    with_fingerprint :
        (fp : Text)
        → fp ≡ e.fingerprint
        → ◌≡◌ {A = Baseline}
            (record b { file_entries = record e { fingerprint = fp } ∷ b.file_entries })
            (record b { file_entries = e ∷ b.file_entries })
    with_fingerprint fp p =
        ap (λ fp. record b { file_entries = record e { fingerprint = fp } ∷ b.file_entries }) p

add_item-message :
    (e : RepoEntry) (b : Baseline)
    → IsCanonical e.rule_id
    → add_item (message_json e) b ≡ record b { repo_entries = e ∷ b.repo_entries }
unfolding add_item message_json text_eq
add_item-message e b (c, n) = rw (n, c) refl

add_items-messages :
    (rs : List RepoEntry)
    → All (λ (e : RepoEntry). IsCanonical e.rule_id) rs
    → add_items (map message_json rs) ≡ record { file_entries = []; repo_entries = rs }
unfolding add_items
add_items-messages [] h = refl
add_items-messages (e ∷ rs) h =
    ap (add_item (message_json e)) (add_items-messages rs h.1) ∙ add_item-message e _ h.0

add_items-entries :
    (es : List FileEntry) (rs : List RepoEntry)
    → All (λ (e : FileEntry). IsCanonical e.rule_id × (strip e.fingerprint ≡ e.fingerprint)) es
    → All (λ (e : RepoEntry). IsCanonical e.rule_id) rs
    → add_items (map entry_json es ++ map message_json rs)
      ≡ record { file_entries = es; repo_entries = rs }
unfolding add_items
add_items-entries [] rs h k = add_items-messages rs k
add_items-entries (e ∷ es) rs h k =
    ap (add_item (entry_json e)) (add_items-entries es rs h.1 k) ∙ add_item-entry e _ h.0.0 h.0.1

-- A baseline whose rule ids are canonical and not empty, and whose fingerprints have no blanks at
-- their ends, loads after it was saved as its entries, in the sorted order in which they were
-- written.
pub load-save :
    (now : Text) (b : Baseline)
    → IsSavable b
    → load_baseline (some (save_baseline now b))
      ≡ ok (record {
        file_entries = sort entry_leb b.file_entries;
        repo_entries = sort message_leb b.repo_entries;
      })
unfolding load_baseline save_baseline text_eq int_eq ℕ_discrete
load-save now b (h, k) =
    rw to_list-items_of
      (ap ok (add_items-entries _ _ (All-sort entry_leb _ _ h) (All-sort message_leb _ _ k)))
