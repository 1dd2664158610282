-- ===== src/Menu/Tests.antt =====
-- Runs of the menu strings.
use bbs_rs.Prelude.{[], ◌≡◌, refl, ◌≢◌, some, none, codes}
use bbs_rs.Menu.{mail_sysop, builtin, board, from_action, parse}
use bbs_rs.Menu.Laws.{parse-spelled}

shouted : parse (codes " Mail_Sysop ") ≡ some (builtin mail_sysop)
unfolding parse from_action
shouted = refl

no_name : parse (codes "door:  ") ≡ none
unfolding parse
no_name = refl

general_here : codes "general" ≢ []
general_here e = cc

parse-spelled_example : parse (codes "board:general") ≡ some (board (codes "general"))
parse-spelled_example = parse-spelled (board (codes "general")) (general_here, refl)
