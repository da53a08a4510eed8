-- ===== src/Safety/Paths.antt =====
-- Paths as `pathlib` reads them, the protected roots, and `is_protected`.
use Prim.Native.Char.{code}
use teldrive_lab.Prelude.{
  String, Bool, true, false, ◌&&◌, not, List, [], ◌∷◌, ◌++◌, map, eqb, if◌then◌else◌, filter_by,
  any_by, ◌==◌,
}
use teldrive_lab.Text.{split, has_text}

-- A pure POSIX path: its components, without empty ones and ".".
pub record FilePath : Type 0 where
  pub is_absolute : Bool
  pub parts : List String

abbrev pub kept : String → Bool
kept s = not (s == "") && not (s == ".")

abbrev starts_slash : String → Bool
starts_slash String.[] = false
starts_slash (String.◌∷◌ c s) = eqb (code c) b'/'

-- `Path(text)`
unfoldable pub parse : String → FilePath
unfolding split
parse text = record { is_absolute = starts_slash text; parts = filter_by kept (split b'/' text) }

-- `PRODUCTION_HOME`, `BUILTIN_PROTECTED_ROOTS` and `BUILTIN_PROTECTED_STATE`, by their components.
abbrev pub production_home : List String
production_home = "home" ∷ "thakuralok" ∷ []

abbrev pub builtin_protected_roots : List FilePath
builtin_protected_roots =
    record { is_absolute = true; parts = production_home ++ "TelegramRaw" ∷ [] }
    ∷ record { is_absolute = true; parts = production_home ++ "TelegramDrive" ∷ [] }
    ∷ record { is_absolute = true; parts = production_home ++ "teldrive" ∷ [] }
    ∷ record { is_absolute = true; parts = production_home ++ "teldrive-project" ∷ [] }
    ∷ []

abbrev pub builtin_protected_state : List FilePath
builtin_protected_state =
    record { is_absolute = true; parts = production_home ++ "teldrive" ∷ "session.db" ∷ [] }
    ∷ record { is_absolute = true; parts = "run" ∷ "docker.sock" ∷ [] }
    ∷ []

-- What the host answers: the working directory, `Path.resolve(strict=False)` of an absolute path,
-- `Path.expanduser`, and the two environment variables ("" if unset).
pub record Host : Type 0 where
  pub cwd : List String
  pub real : List String → List String
  pub expanduser : FilePath → FilePath
  pub protected_roots_env : String
  pub protected_state_env : String

module _ (h : Host) where
  -- The candidate that `_resolve` builds: a leading "~" is the production home.
  abbrev candidate : Bool → List String → List String
  candidate true parts = parts
  candidate false [] = h.cwd
  candidate false (p ∷ parts) = if p == "~" then production_home ++ parts else h.cwd ++ p ∷ parts

  unfoldable pub resolve_path : FilePath → List String
  resolve_path p = h.real (candidate p.is_absolute p.parts)

  -- `_resolve`
  unfoldable pub resolve : String → List String
  unfolding resolve_path parse
  resolve text = resolve_path (parse text)

  -- `_configured_paths`
  unfoldable pub configured_paths : String → List FilePath
  unfolding parse split has_text
  configured_paths raw =
      map (λ item. h.expanduser (parse item)) (filter_by has_text (split b':' raw))

  unfoldable pub protected_roots : List FilePath
  unfolding configured_paths
  protected_roots = builtin_protected_roots ++ configured_paths h.protected_roots_env

  unfoldable pub protected_state : List FilePath
  unfolding configured_paths
  protected_state = builtin_protected_state ++ configured_paths h.protected_state_env

-- candidate == root or root in candidate.parents
unfoldable pub is_within : List String → List String → Bool
is_within [] candidate = true
is_within (r ∷ root) [] = false
is_within (r ∷ root) (c ∷ candidate) = if r == c then is_within root candidate else false

module _ (h : Host) where
  unfoldable pub is_protected : String → Bool
  is_protected path =
      any_by (λ root. is_within (resolve_path h root) (resolve h path))
        (protected_roots h ++ protected_state h)
