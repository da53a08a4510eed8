-- ===== src/Files.antt =====
-- What the modules use of pathlib beside `is_protected`: the name of a path, its text, and
-- `Path.resolve(strict=False)`. A file is read at the text of its path, as pathlib prints it.
use teldrive_lab.Prelude.{String, List, [], ◌∷◌, ◌++◌, if◌then◌else◌, ◌==◌}
use teldrive_lab.Text.{join}
use teldrive_lab.Safety.Paths.{Host, FilePath, parse}
use teldrive_lab.Safety.Policy.{path_text}

abbrev last_part : List String → String
last_part [] = ""
last_part (p ∷ []) = p
last_part (p ∷ q ∷ parts) = last_part (q ∷ parts)

-- `Path(text).name`
abbrev pub file_name : String → String
file_name text = last_part (parse text).parts

-- `str` of a path
abbrev pub printed : FilePath → String
printed path =
    if path.is_absolute
    then path_text path.parts
    else elim path.parts [ [] ↦ "." | p ∷ parts ↦ join "/" (p ∷ parts) ]

-- `str(Path(text))`
unfoldable pub plain_text : String → String
plain_text text = printed (parse text)

-- `path / text`: an absolute text takes the place of the path.
abbrev pub divided : FilePath → String → FilePath
divided path text =
    if (parse text).is_absolute
    then parse text
    else record { is_absolute = path.is_absolute; parts = path.parts ++ (parse text).parts }

-- The parts of a path from the root on.
abbrev pub anchored : Host → String → List String
anchored h p = if (parse p).is_absolute then (parse p).parts else h.cwd ++ (parse p).parts

-- `Path(text).resolve(strict=False)`
abbrev pub real_path : Host → String → List String
real_path h p = h.real (anchored h p)

-- `str(Path(text).resolve(strict=False))`
unfoldable pub real_text : Host → String → String
real_text h p = path_text (real_path h p)

-- `str((root / name).resolve(strict=False))`, for the parts of the root
unfoldable pub real_child : Host → List String → String → String
real_child h root name = path_text (h.real (root ++ (if name == "" then [] else name ∷ [])))
