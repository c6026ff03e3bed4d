-- ===== src/Cli/Tests.antt =====
-- Concrete command lines.
use skai_edge_native.Common.{ℕ, ◌≡◌, refl, List, [], ◌∷◌, codes, eqb}
use skai_edge_native.Cli.{parse_command_line, options, take_path}

abbrev arguments : List (List ℕ)
arguments = codes "--rtsp-test" ∷ codes "--config" ∷ codes "edge.yaml" ∷ []

twice_refused :
    (parse_command_line (codes "1") (codes "--rtsp-test" ∷ codes "--rtsp-test" ∷ [])).exit_code ≡ 2
unfolding parse_command_line options take_path eqb
twice_refused = refl

help_wins : (parse_command_line (codes "1") (codes "--bogus" ∷ codes "--help" ∷ [])).exit_code ≡ 0
unfolding parse_command_line options take_path eqb
help_wins = refl
