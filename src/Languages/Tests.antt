-- ===== src/Languages/Tests.antt =====
-- The languages of some files.
use slopsentinel.Base.{codes, text_eq, [], ◌∷◌, some, ◌≡◌, refl}
use slopsentinel.Languages.{detect_language, suffix, tree_sitter_language_for_path}

tsx : detect_language (codes "src" ∷ codes "A.TSX" ∷ []) ≡ some (codes "typescript")
unfolding detect_language text_eq
tsx = refl

tsx_grammar : tree_sitter_language_for_path (codes "A.TSX" ∷ []) (codes "typescript") ≡ codes "tsx"
unfolding tree_sitter_language_for_path
tsx_grammar = refl

dot_file : suffix (codes ".py" ∷ []) ≡ []
unfolding suffix
dot_file = refl

dot_at_end : suffix (codes "a.py." ∷ []) ≡ []
unfolding suffix
dot_at_end = refl
