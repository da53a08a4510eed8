-- ===== src/Runtime.antt =====
-- teldrive_lab/runtime.py: the directories of the Lab's own state. Creating them is not modelled; the
-- loop of `ensure_runtime` is its checks.
pub mod Laws
use teldrive_lab.Prelude.{
  String, Bool, true, false, Option, none, some, List, [], ◌∷◌, if◌then◌else◌, ◌++◌,
}
use teldrive_lab.Exec.{Result, ok, err, value_error}
use teldrive_lab.Text.{append}
use teldrive_lab.Safety.Paths.{Host, is_protected}
use teldrive_lab.Safety.Policy.{path_text}

pub record RuntimePaths : Type 0 where
  pub root : List String
  pub state : List String
  pub cache : List String
  pub logs : List String
  pub backups : List String

-- `_validate_lab_path`, of a path that `resolve` has made.
unfoldable pub validate_lab_path : Host → List String → String → Result (List String)
validate_lab_path h resolved label =
    if is_protected h (path_text resolved)
    then err (
        value_error (
          append label
            (append " resolves inside a protected production boundary: " (path_text resolved))))
    else ok resolved

abbrev layout : Result (List String) → Result (List String) → Result RuntimePaths
layout (err e) cache = err e
layout (ok base) (err e) = err e
layout (ok base) (ok cache) = ok (record {
  root = base;
  state = base ++ "state" ∷ [];
  cache = cache;
  logs = base ++ "logs" ∷ [];
  backups = base ++ "backups" ∷ [];
})

-- `runtime_paths`, from its resolved base and cache.
unfoldable pub runtime_paths : Host → (base cache : List String) → Result RuntimePaths
runtime_paths h base cache =
    layout (validate_lab_path h base "TELDRIVE_LAB_STATE")
      (validate_lab_path h cache "TELDRIVE_LAB_CACHE")

abbrev check_all : Host → RuntimePaths → List (List String) → Result RuntimePaths
check_all h paths [] = ok paths
check_all h paths (d ∷ ds) =
    let rest = check_all h paths ds in
    if is_protected h (path_text d)
    then err (value_error (append "runtime path is protected production state: " (path_text d)))
    else rest

-- `ensure_runtime`
unfoldable pub ensure_runtime : Host → RuntimePaths → Result RuntimePaths
ensure_runtime h p = check_all h p (p.root ∷ p.state ∷ p.cache ∷ p.logs ∷ p.backups ∷ [])
