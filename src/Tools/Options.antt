-- ===== src/Tools/Options.antt =====
-- src/rm/rm.c, src/ls/ls.c and src/format/format.c: `app_config`, the arguments of these tools.
use nvme_dpdk_pcapreplay.Prelude.{
  ℕ, List, [], ◌∷◌, ◌==◌, if◌then◌else◌, length, drop, Outcome, done, exits, hangs, overruns,
}

-- The arguments of a program, the values of getopt_long up to -1, and `optind` after them.
pub record CommandLine : Type 0 where
  pub argv : List (List ℕ)
  pub options : List ℕ
  pub optind : ℕ

-- The files that follow the options.
abbrev pub files_of : CommandLine → List (List ℕ)
files_of line = drop line.optind line.argv

-- The loop of rm and of ls: any option, `--help` or another, ends the program.
unfoldable pub no_options : List ℕ → Outcome (Unit {0})
no_options [] = done tt
no_options (c ∷ cs) = exits 1

-- `app_paramCheck` of rm.
unfoldable pub rm_param_check : List (List ℕ) → Outcome (List (List ℕ))
rm_param_check files = if length files == 0 then exits 255 else done files

-- `app_config` of rm: the files to delete.
unfoldable pub rm_app_config : CommandLine → Outcome (List (List ℕ))
unfolding no_options rm_param_check
rm_app_config line = elim (no_options line.options) [
  | done x ↦ rm_param_check (files_of line)
  | exits c ↦ exits c
  | hangs ↦ hangs
  | overruns ↦ overruns
]

-- `app_config` of ls, which does not look at its files.
unfoldable pub ls_app_config : CommandLine → Outcome (List (List ℕ))
unfolding no_options
ls_app_config line = elim (no_options line.options) [
  | done x ↦ done (files_of line)
  | exits c ↦ exits c
  | hangs ↦ hangs
  | overruns ↦ overruns
]

-- The loop of format, which would only print a flag's option.
unfoldable pub format_app_config : List ℕ → Outcome (Unit {0})
format_app_config [] = done tt
format_app_config (c ∷ cs) = let rest = format_app_config cs in if c == 0 then rest else exits 1
