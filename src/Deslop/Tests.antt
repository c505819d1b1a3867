-- ===== src/Deslop/Tests.antt =====
-- The clean-up at sample files.
use slopsentinel.Base.{
  ℕ, codes, text_eq, nat_eq, List, [], ◌∷◌, map, select, none, some, inl, ◌≡◌, refl,
}
use slopsentinel.CodeLines.{iter_comment_lines}
use slopsentinel.Autofix.Lines.{splitlines_keep, concat}
use slopsentinel.Deslop.{deslop_text}
use slopsentinel.Deslop.Kept.{enumerate, stays, deslop_text_exact}
use slopsentinel.Autofix.Syntax

abbrev no_tokens : Syntax.Python
no_tokens = record {
  parse = λ text. none;
  generate_tokens = λ text. none;
  literal_eval = λ text. none;
  repr = λ text. text;
}

deslop_runs :
    deslop_text no_tokens
      (codes "go")
      (codes "a()\n// note that x\n/* we should\nnot */\n// fine\n")
    ≡ codes "a()\nnot */\n// fine\n"
unfolding deslop_text
deslop_runs = refl

deslop_text_exact_example :
    deslop_text no_tokens (codes "go") (codes "a()\n// note that x\n")
    ≡ concat (
        map
          (λ (x : ℕ × List ℕ). x.1)
          (select
            (stays (iter_comment_lines (splitlines_keep (codes "a()\n// note that x\n"))))
            (enumerate 1 (splitlines_keep (codes "a()\n// note that x\n")))))
unfolding text_eq
deslop_text_exact_example =
    deslop_text_exact no_tokens (codes "go") (codes "a()\n// note that x\n") (inl refl)

-- A suppression directive goes with the words that follow it.
directive_goes :
    deslop_text no_tokens (codes "go") (codes "// slop: disable=A03 note that x\nb()\n")
    ≡ codes "b()\n"
unfolding deslop_text
directive_goes = refl

-- One token of a line of Python is a comment.
abbrev one_comment : Syntax.Python
one_comment = record no_tokens {
  generate_tokens = λ text. some (
      record {
        kind = Syntax.comment_token;
        string = codes "# note that y";
        start_row = 1;
        start_col = 6;
        end_row = 1;
        end_col = 19;
      }
      ∷ []);
}

deslop_inline :
    deslop_text one_comment (codes "python") (codes "x = 1 # note that y\nz()\n")
    ≡ codes "x = 1\nz()\n"
unfolding deslop_text
deslop_inline = refl
