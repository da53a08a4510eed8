-- ===== src/Prelude/Texts.antt =====
-- Python's optional texts and their truth values, and texts by their characters.
use Prim.Native.String.{String}
use mathlib.Core.Bool.{Bool, true, false}
use mathlib.Core.Option.{Option, none, some}
use text.Mathlib.Text.{◌==◌}
use teldrive_lab.Prelude.Tests.{if◌then◌else◌}

-- `o or fallback`: an empty text counts as no text.
abbrev pub or_text : Option String → String → String
or_text none fallback = fallback
or_text (some s) fallback = if s == "" then fallback else s

-- `bool(o)` for an optional text.
abbrev pub truthy : Option String → Bool
truthy none = false
truthy (some s) = if s == "" then false else true

-- `o == s` for an optional text, as SQL compares: a NULL equals nothing.
abbrev pub holds : Option String → String → Bool
holds none s = false
holds (some t) s = t == s
