-- ===== src/Scoring/Confidence.antt =====
-- The confidence label, from the hits of the fingerprint rules.
use slopsentinel.Base.{
  ℕ, ◌≤◌, ◌≡◌, refl, Text, text_eq, List, [], ◌∷◌, ◌++◌, Option, none, some, length, arith,
}
use slopsentinel.Types.{AiConfidence, low, medium, high, Violation, RuleMeta}
use slopsentinel.Scoring.{
  Floats, model_of, count_some, add_some, collect_hits, confidence_for, compute_ai_confidence,
}

abbrev pub rank : AiConfidence → ℕ
rank low = 0
rank medium = 1
rank high = 2

some_grow :
    (m : Option Text) (n : ℕ) (ms : List Text)
    → (n ≤ count_some m n) × (length ms ≤ length (add_some m ms))
some_grow none n ms = omega arith
some_grow (some m) n ms = ground arith

module _ (meta : Text → Option RuleMeta) where
  collect_hits-append :
      (vs ws : List Violation) (n : ℕ) (ms : List Text)
      → collect_hits meta (vs ++ ws) n ms
        ≡ collect_hits meta ws (collect_hits meta vs n ms).0 (collect_hits meta vs n ms).1
  unfolding collect_hits
  collect_hits-append [] ws n ms = refl
  collect_hits-append (v ∷ vs) ws n ms = collect_hits-append vs ws _ _

  collect_hits-grow :
      (vs : List Violation) (n : ℕ) (ms : List Text)
      → (n ≤ (collect_hits meta vs n ms).0) × (length ms ≤ length (collect_hits meta vs n ms).1)
  unfolding collect_hits
  collect_hits-grow [] n ms = omega arith
  collect_hits-grow (v ∷ vs) n ms =
      let m = model_of meta v in
      let later = collect_hits-grow vs (count_some m n) (add_some m ms) in
      let (p, q) = some_grow m n ms in (omega arith, omega arith)

  module _ (fl : Floats) (x y : fl.F) where
    confidence_for_mono :
        (h k m n : ℕ)
        → h ≤ k
        → m ≤ n
        → rank (confidence_for meta fl h m x y) ≤ rank (confidence_for meta fl k n x y)
    unfolding confidence_for
    confidence_for_mono h k m n p q = ground arith

    -- At the same densities, further violations do not lower the confidence.
    pub confidence-append_le :
        (vs ws : List Violation)
        → rank (compute_ai_confidence meta fl vs x y)
          ≤ rank (compute_ai_confidence meta fl (vs ++ ws) x y)
    unfolding compute_ai_confidence
    confidence-append_le vs ws =
        let (hits, models) = collect_hits meta vs 0 [] in
        let (p, q) = collect_hits-grow ws hits models in
        rw (collect_hits-append vs ws 0 []) (confidence_for_mono hits _ (length models) _ p q)
