-- ===== src/Baseline/Filtering.antt =====
-- A baseline hides what it was built from, also where the lines have moved.
use slopsentinel.Base.{
  ℕ, ◌-◌, Text, text_eq, List, [], ◌∷◌, ◌++◌, Option, none, some, true, false, ◌≡◌, refl, sym, ap,
  append-nil, ◌∙◌, is_nil, arith, pos, int_eq,
}
use slopsentinel.Types.{FilePath, Violation}
use slopsentinel.Baseline.{
  FileEntry, Baseline, Machine, canonical, or_empty, snippet_of, place_of, rel_of, fingerprint_at,
  add_violation, build_baseline, is_known_at, is_known, filter_violations,
}

abbrev entry : Text → Text → ℕ → Option Text → FileEntry
entry rule rel n o = record { rule_id = rule; path = rel; line = pos n; fingerprint = or_empty o }

-- An entry makes its own violation known: by its fingerprint, or by its line if it has none.
entry-is_known :
    (b : Baseline) (rule rel : Text) (n : ℕ) (o : Option Text)
    → ((fp : Text) → o ≡ some fp → is_nil fp ≡ false)
    → is_known_at (record b { file_entries = entry rule rel n o ∷ b.file_entries }) rule rel o n
      ≡ true
unfolding is_known_at
entry-is_known b rule rel n none h = ground arith
entry-is_known b rule rel n (some fp) h = ground (arith, h fp refl)

-- A fingerprint that an entry holds makes a violation known at any line.
entry-is_known_anywhere :
    (b : Baseline) (rule rel : Text) (n k : ℕ) (fp : Text)
    → is_nil fp ≡ false
    → is_known_at
        (record b { file_entries = entry rule rel n (some fp) ∷ b.file_entries })
        rule
        rel
        (some fp)
        k
      ≡ true
unfolding is_known_at
entry-is_known_anywhere b rule rel n k fp h = ground arith

more-is_known :
    (b : Baseline) (e : FileEntry) (rule rel : Text) (o : Option Text) (n : ℕ)
    → is_known_at b rule rel o n ≡ true
    → is_known_at (record b { file_entries = e ∷ b.file_entries }) rule rel o n ≡ true
unfolding is_known_at
more-is_known b e rule rel none n h = ground arith
more-is_known b e rule rel (some fp) n h = ground arith

module _ (m : Machine) (root : FilePath) where
  fingerprint_not_empty :
      (rule : Text) (p : FilePath) (n : ℕ) (fp : Text)
      → fingerprint_at m root rule p n ≡ some fp
      → is_nil fp ≡ false
  unfolding fingerprint_at
  fingerprint_not_empty rule p n fp h = ground (
    arith,
    m.digest_not_empty (canonical rule) (rel_of m root p) (snippet_of (m.file_lines p) (n - 1)),
  )

  is_known-add_self :
      (b : Baseline) (v : Violation) (place : Option (FilePath × ℕ))
      → is_known m root (add_violation m root v place b) v place ≡ true
  unfolding is_known add_violation
  is_known-add_self b v none = ground arith
  is_known-add_self b v (some (p, n)) =
      entry-is_known b (canonical v.rule_id) (rel_of m root p) n _
        (fingerprint_not_empty v.rule_id p n)

  is_known-add :
      (b : Baseline) (v w : Violation) (place place_w : Option (FilePath × ℕ))
      → is_known m root b v place ≡ true
      → is_known m root (add_violation m root w place_w b) v place ≡ true
  unfolding is_known add_violation
  is_known-add b v w none none h = ground arith
  is_known-add b v w none (some (q, k)) h = h
  is_known-add b v w (some (p, n)) none h = unfold is_known_at in h
  is_known-add b v w (some (p, n)) (some (q, k)) h = more-is_known b _ _ _ _ n h

  -- A violation that a baseline was built from is known to every larger baseline.
  AllKnown : Baseline → List Violation → Type 0
  AllKnown b [] = Unit
  AllKnown b (v ∷ vs) = (is_known m root b v (place_of v) ≡ true) × AllKnown b vs

  AllKnown-add :
      (b : Baseline) (w : Violation) (vs : List Violation)
      → AllKnown b vs
      → AllKnown (add_violation m root w (place_of w) b) vs
  unfolding AllKnown
  AllKnown-add b w [] h = tt
  AllKnown-add b w (v ∷ vs) h = (is_known-add b v w _ _ h.0, AllKnown-add b w vs h.1)

  AllKnown-build : (vs : List Violation) → AllKnown (build_baseline m root vs) vs
  unfolding AllKnown build_baseline
  AllKnown-build [] = tt
  AllKnown-build (v ∷ vs) = (is_known-add_self _ v _, AllKnown-add _ v vs (AllKnown-build vs))

  filter-AllKnown :
      (b : Baseline) (vs ws : List Violation)
      → AllKnown b vs
      → filter_violations m root (vs ++ ws) b ≡ filter_violations m root ws b
  unfolding AllKnown filter_violations
  filter-AllKnown b [] ws h = refl
  filter-AllKnown b (v ∷ vs) ws h = rw h.0 (filter-AllKnown b vs ws h.1)

  -- On the machine that a baseline was built on, a scan that finds what it was built from, and
  -- more behind it, reports what it would report of the rest alone, and nothing if there is no
  -- more.
  pub filter-build :
      (vs ws : List Violation)
      → let b = build_baseline m root vs in
        (filter_violations m root (vs ++ ws) b ≡ filter_violations m root ws b)
        × (filter_violations m root vs b ≡ [])
  filter-build vs ws =
      let b = build_baseline m root vs in
      let known = AllKnown-build vs in
      (
        filter-AllKnown b vs ws known,
        ap (λ l. filter_violations m root l b) (sym (append-nil vs))
            ∙ filter-AllKnown b vs [] known
            ∙ unfold filter_violations in refl,
      )

  known_at-add :
      (b : Baseline) (w : Violation) (place : Option (FilePath × ℕ)) (rule rel : Text)
      (o : Option Text) (k : ℕ)
      → is_known_at b rule rel o k ≡ true
      → is_known_at (add_violation m root w place b) rule rel o k ≡ true
  unfolding add_violation
  known_at-add b w none rule rel o k h = unfold is_known_at in h
  known_at-add b w (some (q, j)) rule rel o k h = more-is_known b _ rule rel o k h

  known_at-build :
      (before after : List Violation) (v : Violation) (p : FilePath) (n k : ℕ) (fp : Text)
      → place_of v ≡ some (p, n)
      → fingerprint_at m root v.rule_id p n ≡ some fp
      → is_known_at
          (build_baseline m root (before ++ v ∷ after))
          (canonical v.rule_id)
          (rel_of m root p)
          (some fp)
          k
        ≡ true
  unfolding build_baseline
  known_at-build [] after v p n k fp e f =
      rw (e, add_violation, f)
        (entry-is_known_anywhere _ _ _ n k fp (fingerprint_not_empty v.rule_id p n fp f))
  known_at-build (w ∷ before) after v p n k fp e f =
      known_at-add _ w _ _ _ _ k (known_at-build before after v p n k fp e f)

-- A violation found later, perhaps at another line of a changed file, is hidden by a baseline
-- that was built from a violation with the same rule, relative path and fingerprint of the lines
-- around it.
pub filter_moved :
    (m later : Machine) (root : FilePath) (before after rest : List Violation) (v w : Violation)
    (p q : FilePath) (n k : ℕ) (fp : Text)
    → place_of v ≡ some (p, n)
    → place_of w ≡ some (q, k)
    → canonical w.rule_id ≡ canonical v.rule_id
    → rel_of later root q ≡ rel_of m root p
    → fingerprint_at m root v.rule_id p n ≡ some fp
    → fingerprint_at later root w.rule_id q k ≡ some fp
    → let b = build_baseline m root (before ++ v ∷ after) in
      filter_violations later root (w ∷ rest) b ≡ filter_violations later root rest b
unfolding filter_violations
filter_moved m later root before after rest v w p q n k fp ev ew er eq fv fw =
    let known = known_at-build m root before after v p n k fp ev fv in
    rw (ew, is_known, fw, er, eq, known) refl
