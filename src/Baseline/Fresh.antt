-- ===== src/Baseline/Fresh.antt =====
-- A baseline hides nothing of a rule that it has no violation of.
use slopsentinel.Base.{
  ℕ, Text, text_eq, int_eq, List, [], ◌∷◌, Option, none, some, false, ◌==◌, map, contains, All, ◌≡◌,
  refl, ◌∙◌, arith,
}
use slopsentinel.Types.{FilePath, Violation}
use slopsentinel.Baseline.{
  FileEntry, RepoEntry, Baseline, Machine, canonical, place_of, rel_of, add_violation,
  build_baseline, is_known_at, is_known, filter_violations,
}

is_known_at-other :
    (b : Baseline) (e : FileEntry) (rule rel : Text) (o : Option Text) (n : ℕ)
    → (e.rule_id == rule) ≡ false
    → is_known_at (record b { file_entries = e ∷ b.file_entries }) rule rel o n
      ≡ is_known_at b rule rel o n
unfolding is_known_at
is_known_at-other b e rule rel none n h = ground (arith, h)
is_known_at-other b e rule rel (some fp) n h = ground (arith, h)

is_known_at-repo :
    (b : Baseline) (e : RepoEntry) (rule rel : Text) (o : Option Text) (n : ℕ)
    → is_known_at (record b { repo_entries = e ∷ b.repo_entries }) rule rel o n
      ≡ is_known_at b rule rel o n
unfolding is_known_at
is_known_at-repo b e rule rel none n = refl
is_known_at-repo b e rule rel (some fp) n = refl

is_known_at-empty :
    (rule rel : Text) (o : Option Text) (n : ℕ)
    → is_known_at (record { file_entries = []; repo_entries = [] }) rule rel o n ≡ false
unfolding is_known_at
is_known_at-empty rule rel none n = refl
is_known_at-empty rule rel (some fp) n = refl

module _ (m later : Machine) (root : FilePath) where
  is_known-other :
      (b : Baseline) (v w : Violation) (place place_w : Option (FilePath × ℕ))
      → (canonical v.rule_id == canonical w.rule_id) ≡ false
      → is_known later root (add_violation m root v place b) w place_w
        ≡ is_known later root b w place_w
  unfolding is_known add_violation
  is_known-other b v w none none h = ground (arith, h)
  is_known-other b v w (some (p, n)) none h = refl
  is_known-other b v w none (some (q, k)) h =
      is_known_at-repo b (record { rule_id = canonical v.rule_id; message = v.message }) _ _ _ k
  is_known-other b v w (some (p, n)) (some (q, k)) h = is_known_at-other b _ _ _ _ k h

  abbrev pub ids : List Violation → List Text
  ids = map (λ (v : Violation). canonical v.rule_id)

  is_known-empty :
      (w : Violation) (place : Option (FilePath × ℕ))
      → is_known later root (record { file_entries = []; repo_entries = [] }) w place ≡ false
  unfolding is_known
  is_known-empty w none = refl
  is_known-empty w (some (p, n)) = is_known_at-empty (canonical w.rule_id) (rel_of later root p) _ n

  is_known-build :
      (vs : List Violation) (w : Violation)
      → contains (ids vs) (canonical w.rule_id) ≡ false
      → is_known later root (build_baseline m root vs) w (place_of w) ≡ false
  unfolding build_baseline
  is_known-build [] w h = is_known-empty w (place_of w)
  is_known-build (v ∷ vs) w h =
      let apart : (canonical v.rule_id == canonical w.rule_id) ≡ false = ground (arith, h) in
      let rest : contains (ids vs) (canonical w.rule_id) ≡ false = ground (arith, h) in
      is_known-other (build_baseline m root vs) v w (place_of v) (place_of w) apart
      ∙ is_known-build vs w rest

  -- Violations of rules that no violation of the baseline has, in canonical form, are all reported, on
  -- whatever machine and in whatever state of the files they are found.
  pub filter_fresh :
      (vs ws : List Violation)
      → All (λ (w : Violation). contains (ids vs) (canonical w.rule_id) ≡ false) ws
      → filter_violations later root ws (build_baseline m root vs) ≡ ws
  unfolding filter_violations
  filter_fresh vs [] h = refl
  filter_fresh vs (w ∷ ws) (fresh, h) = rw (is_known-build vs w fresh, filter_fresh vs ws h) refl
