-- ===== src/Patterns/Tests.antt =====
-- The patterns at sample lines.
use slopsentinel.Base.{codes, text_eq, nat_eq, ◌≡◌, refl, true, false}
use slopsentinel.Patterns.{polite_re, banner_re, last_update_re, thinking_re, comprehensive_re}

polite_runs : polite_re (codes "# Now  Let's do it") ≡ true
unfolding polite_re
polite_runs = refl

polite_word : polite_re (codes "# outlet's size") ≡ false
unfolding polite_re
polite_word = refl

polite_spaces : polite_re (codes "# please \t note, that") ≡ true
unfolding polite_re
polite_spaces = refl

banner_runs : banner_re (codes "  # ====== Configuration ======\n") ≡ true
unfolding banner_re
banner_runs = refl

banner_short : banner_re (codes "# ------") ≡ false
unfolding banner_re
banner_short = refl

banner_seven : banner_re (codes "// -------") ≡ true
unfolding banner_re
banner_seven = refl

update_runs : last_update_re (codes "# As of my last update, x") ≡ true
unfolding last_update_re
update_runs = refl

thinking_runs : thinking_re (codes "// </THINKING>") ≡ true
unfolding thinking_re
thinking_runs = refl

comprehensive_runs : comprehensive_re (codes "# Here’s a comprehensive guide") ≡ true
unfolding comprehensive_re
comprehensive_runs = refl
