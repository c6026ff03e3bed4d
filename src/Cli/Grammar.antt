-- ===== src/Cli/Grammar.antt =====
-- The command lines that start the service, against the loop that parses them.
use skai_edge_native.Common.{
  ℕ, ◌≡◌, refl, List, [], ◌∷◌, Bool, true, false, not, ◌==◌, codes, eqb, eqb→eq, arith, inl, inr,
  ◌⊎◌,
}
use skai_edge_native.Cli.{
  CliAction, run, exit, CliResult, fresh, is_empty, no_path, options, take_path, parse_command_line,
}

-- The accepted command lines; a path is not empty and does not start with a dash.
pub data CommandLine : Type 0 where
  plain testing : CommandLine
  config testing_config config_testing : List ℕ → CommandLine

abbrev pub words : CommandLine → List (List ℕ)
words plain = []
words testing = codes "--rtsp-test" ∷ []
words (config path) = codes "--config" ∷ path ∷ []
words (testing_config path) = codes "--rtsp-test" ∷ codes "--config" ∷ path ∷ []
words (config_testing path) = codes "--config" ∷ path ∷ codes "--rtsp-test" ∷ []

abbrev pub is_sound : CommandLine → Bool
is_sound plain = true
is_sound testing = true
is_sound (config path) = not (no_path path)
is_sound (testing_config path) = not (no_path path)
is_sound (config_testing path) = not (no_path path)

abbrev pub meaning : CommandLine → CliResult
meaning plain = fresh
meaning testing = record fresh { rtsp_test = true }
meaning (config path) = record fresh { config_path = path }
meaning (testing_config path) = record fresh { config_path = path; rtsp_test = true }
meaning (config_testing path) = record fresh { config_path = path; rtsp_test = true }

path-not_option : (p t : List ℕ) → no_path p ≡ false → eqb p (45 ∷ t) ≡ false
unfolding eqb
path-not_option [] t h = ground arith
path-not_option (c ∷ cs) t h = ground arith

no_dash : (c : ℕ) → not (c == 45) ≡ true → (c == 45) ≡ false
no_dash c h = ground arith

-- Every accepted command line starts the service with what it says, whatever the version.
pub parse_command_line-words :
    (version : List ℕ) (line : CommandLine)
    → is_sound line ≡ true
    → parse_command_line version (words line) ≡ meaning line
unfolding parse_command_line options take_path eqb
parse_command_line-words version plain h = refl
parse_command_line-words version testing h = refl
parse_command_line-words version (config (c ∷ p)) h = rw (no_dash c h) refl
parse_command_line-words version (config []) h = ground arith
parse_command_line-words version (testing_config (c ∷ p)) h = rw (no_dash c h) refl
parse_command_line-words version (testing_config []) h = ground arith
parse_command_line-words version (config_testing (c ∷ p)) h = rw (no_dash c h) refl
parse_command_line-words version (config_testing []) h = ground arith

abbrev pub is_run : CliAction → Bool
is_run run = true
is_run exit = false

abbrev runs : List (List ℕ) → CliResult → Bool
runs rest result = is_run (options rest result).action

abbrev rtsp_test_word : List ℕ
rtsp_test_word = codes "--rtsp-test"

abbrev config_word : List ℕ
config_word = codes "--config"

-- What the first argument is when the loop goes on to start the service.
first_option :
    (a : List ℕ) (rest : List (List ℕ)) (r : CliResult)
    → runs (a ∷ rest) r ≡ true
    → (a ≡ rtsp_test_word)
        × (r.rtsp_test ≡ false)
        × (runs rest (record r { rtsp_test = true }) ≡ true)
      ⊎ (a ≡ config_word)
        × (is_empty r.config_path ≡ true)
        × (is_run (take_path rest r).action ≡ true)
unfolding options
first_option a rest r h =
    let word = eqb→eq a rtsp_test_word in let other = eqb→eq a config_word in ground arith

first_path :
    (rest : List (List ℕ)) (r : CliResult)
    → is_run (take_path rest r).action ≡ true
    → (p : List ℕ) × (after : List (List ℕ)) × (rest ≡ p ∷ after)
      × (no_path p ≡ false)
      × (runs after (record r { config_path = p }) ≡ true)
unfolding take_path
first_path [] r h = ground arith
first_path (p ∷ after) r h = (p, after, refl, ground arith, ground arith)

abbrev so_far : List ℕ → Bool → CliResult
so_far path seen = record fresh { config_path = path; rtsp_test = seen }

after_both :
    (rest : List (List ℕ)) (c : ℕ) (p : List ℕ) → runs rest (so_far (c ∷ p) true) ≡ true → rest ≡ []
after_both [] c p h = refl
after_both (a ∷ rest) c p h = ground (arith, first_option a rest (so_far (c ∷ p) true) h)

after_path :
    (rest : List (List ℕ)) (p : List ℕ)
    → no_path p ≡ false
    → runs rest (so_far p false) ≡ true
    → (rest ≡ []) ⊎ (rest ≡ rtsp_test_word ∷ [])
after_path rest [] d h = absurd (ground arith)
after_path [] (c ∷ p) d h = inl refl
after_path (a ∷ rest) (c ∷ p) d h = elim (first_option a rest (so_far (c ∷ p) false) h) [
  | inl (word, _, more) ↦ inr (rw (word, after_both rest c p more) refl)
  | inr (_, none_yet, _) ↦ absurd (ground arith)
]

after_testing :
    (rest : List (List ℕ))
    → runs rest (so_far [] true) ≡ true
    → (rest ≡ []) ⊎ ((p : List ℕ) × (rest ≡ config_word ∷ p ∷ []) × (no_path p ≡ false))
after_testing [] h = inl refl
after_testing (a ∷ rest) h = elim (first_option a rest (so_far [] true) h) [
  | inl (_, seen, _) ↦ absurd (ground arith)
  | inr (word, _, more) ↦ with_path (first_path rest (so_far [] true) more) word
]
  where
    with_path :
        (p : List ℕ) × (after : List (List ℕ)) × (rest ≡ p ∷ after)
          × (no_path p ≡ false)
          × (runs after (so_far p true) ≡ true)
        → a ≡ config_word
        → (a ∷ rest ≡ []) ⊎ ((p : List ℕ) × (a ∷ rest ≡ config_word ∷ p ∷ []) × (no_path p ≡ false))
    with_path ([], after, e, d, more) word = absurd (ground arith)
    with_path (c ∷ p, after, e, d, more) word =
        inr (c ∷ p, rw (word, e, after_both after c p more) refl, d)

line_of :
    (arguments : List (List ℕ))
    → runs arguments fresh ≡ true
    → (line : CommandLine) × (is_sound line ≡ true) × (words line ≡ arguments)
line_of [] h = (plain, refl, refl)
line_of (a ∷ rest) h = elim (first_option a rest fresh h) [
  | inl (word, _, more) ↦ (elim (after_testing rest more) [
    | inl ends ↦ (testing, refl, rw (word, ends) refl)
    | inr (p, e, d) ↦ (testing_config p, ground arith, rw (word, e) refl)
  ])
  | inr (word, _, more) ↦ with_path (first_path rest fresh more) word
]
  where
    with_path :
        (p : List ℕ) × (after : List (List ℕ)) × (rest ≡ p ∷ after)
          × (no_path p ≡ false)
          × (runs after (so_far p false) ≡ true)
        → a ≡ config_word
        → (line : CommandLine) × (is_sound line ≡ true) × (words line ≡ a ∷ rest)
    with_path (p, after, e, d, more) word = elim (after_path after p d more) [
      | inl ends ↦ (config p, ground arith, rw (word, e, ends) refl)
      | inr last ↦ (config_testing p, ground arith, rw (word, e, last) refl)
    ]

-- A command line that starts the service is one of the accepted ones.
pub words-parse_command_line :
    (version : List ℕ) (arguments : List (List ℕ))
    → is_run (parse_command_line version arguments).action ≡ true
    → (line : CommandLine) × (is_sound line ≡ true) × (words line ≡ arguments)
unfolding parse_command_line
words-parse_command_line version [] h = (plain, refl, refl)
words-parse_command_line version (a ∷ rest) h = line_of (a ∷ rest) (ground arith)
