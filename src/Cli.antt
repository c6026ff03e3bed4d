-- ===== src/Cli.antt =====
-- src/cli.cpp and include/skai/cli.hpp: the command line. An argument is the list of its bytes;
-- the version string is set by the build and is an argument.
pub mod Grammar
mod Tests
use skai_edge_native.Common.{
  ℕ, List, [], ◌∷◌, ◌++◌, Bool, true, false, codes, if◌then◌else◌, eqb, ◌==◌, ◌||◌, not, ◌&&◌,
}

-- `CliAction`.
pub data CliAction : Type 0 where
  run exit : CliAction

-- `CliResult`.
pub record CliResult : Type 0 where
  pub action : CliAction
  pub exit_code : ℕ
  pub message : List ℕ
  pub config_path : List ℕ
  pub rtsp_test : Bool

abbrev pub usage : List ℕ
usage = codes "Usage: skai-edge [--help | --version | --rtsp-test] [--config PATH]\n"

abbrev pub exits : ℕ → List ℕ → CliResult
exits code output = record {
  action = exit;
  exit_code = code;
  message = output;
  rtsp_test = false;
  config_path = [];
}

abbrev pub fresh : CliResult
fresh = record { action = run; exit_code = 0; message = []; rtsp_test = false; config_path = [] }

-- `std::find` on the arguments.
abbrev pub contains : List ℕ → List (List ℕ) → Bool
contains option [] = false
contains option (a ∷ rest) = eqb a option || contains option rest

abbrev pub is_empty : List ℕ → Bool
is_empty [] = true
is_empty (c ∷ cs) = false

-- `arguments[index].empty() || arguments[index][0] == '-'`.
abbrev pub no_path : List ℕ → Bool
no_path [] = true
no_path (c ∷ cs) = c == 45

mutual
  -- The loop over the arguments that are left.
  pub options : List (List ℕ) → CliResult → CliResult
  options [] result = result
  options (a ∷ rest) result =
      let next = options rest (record result { rtsp_test = true }) in
      let path = take_path rest result in
      if eqb a (codes "--rtsp-test") && not result.rtsp_test
      then next
      else if eqb a (codes "--rtsp-test")
      then exits 2 (codes "--rtsp-test may be specified only once\n" ++ usage)
      else if eqb a (codes "--config") && is_empty result.config_path
      then path
      else if eqb a (codes "--config")
      then exits 2 (codes "--config may be specified only once\n" ++ usage)
      else exits 2 (codes "Unknown option or arguments: " ++ (a ++ (codes "\n" ++ usage)))

  -- The branch of `--config`, at the argument behind it.
  pub take_path : List (List ℕ) → CliResult → CliResult
  take_path [] result = exits 2 (codes "--config requires a file path\n" ++ usage)
  take_path (p ∷ rest) result =
      let after = options rest (record result { config_path = p }) in
      if no_path p then exits 2 (codes "--config requires a file path\n" ++ usage) else after

pub parse_command_line : List ℕ → List (List ℕ) → CliResult
parse_command_line version [] = fresh
parse_command_line version (a ∷ rest) =
    let parsed = options (a ∷ rest) fresh in
    if contains (codes "--help") (a ∷ rest)
    then exits 0 usage
    else if contains (codes "--version") (a ∷ rest)
    then exits 0 (codes "skai-edge " ++ (version ++ codes "\n"))
    else parsed
