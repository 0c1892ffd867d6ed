-- ===== src/Exporter/World.antt =====
-- What the collectors read from the machine, a parameter, and lib/utils/utils.go over it. A command
-- is a function of its arguments: it stands for what the command prints while one collector runs.
use qnapexporter.Base.{
  Bool, Option, none, some, List, [], ◌∷◌, if◌then◌else◌, Text, contains, trim_space, split_lines,
}
use qnapexporter.Exporter.Errors.{message, not_exist, Fetch, ok, err, ◌>>=◌}

pub data FileContent : Type 0 where
  contents : Text → FileContent
  missing unreadable : FileContent

pub record DirEntry : Type 0 where
  pub name : Text
  pub is_dir : Bool

pub record World : Type 0 where
  -- the standard output of a command, `none` if it fails
  pub exec : Text → List Text → Option Text
  pub file : Text → FileContent
  pub look_path : Text → Option Text
  pub getenv : Text → Text
  -- the entries of a directory, none if it cannot be read
  pub read_dir : Text → List DirEntry

unfoldable pub read_file : World → Text → Fetch Text
read_file w f = elim (w.file f) [
  | contents s ↦ ok (trim_space s)
  | missing ↦ err (not_exist f)
  | unreadable ↦ err (message f)
]

unfoldable pub read_file_lines : World → Text → Fetch (List Text)
unfolding read_file
read_file_lines w f = do s ← read_file w f; ok (split_lines s)

unfoldable pub exec_command : World → Text → List Text → Fetch Text
exec_command w cmd args = elim (w.exec cmd args) [
  | none ↦ err (message cmd)
  | some output ↦ ok (trim_space output)
]

unfoldable pub exec_command_get_lines : World → Text → List Text → Fetch (List Text)
unfolding exec_command
exec_command_get_lines w cmd args = do output ← exec_command w cmd args; ok (split_lines output)

keep_matching : Text → List Text → List Text
keep_matching token [] = []
keep_matching token (line ∷ lines) =
    if contains line token then line ∷ keep_matching token lines else keep_matching token lines

unfoldable pub find_matching_lines : Text → Text → List Text
unfolding keep_matching
find_matching_lines token output = keep_matching token (split_lines output)
