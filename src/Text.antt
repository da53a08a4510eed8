-- ===== src/Text.antt =====
-- Python's operations on texts that the modules use: joining, splitting, searching, changing case.
use Prim.Native.Nat.{ℕ}
use Prim.Native.Char.{Char, code}
use teldrive_lab.Prelude.{
  String, Bool, true, false, ◌&&◌, ◌||◌, List, [], ◌∷◌, eqb, leb, if◌then◌else◌, ◌≡◌, refl, ◌==◌,
  any_by,
}

-- The first field of a split takes one more character.
abbrev push : Char → List String → List String
push c [] = String.◌∷◌ c String.[] ∷ []
push c (s ∷ rest) = String.◌∷◌ c s ∷ rest

-- `text.split(sep)` for a separator of one character.
unfoldable pub split : ℕ → String → List String
split sep String.[] = String.[] ∷ []
split sep (String.◌∷◌ c s) =
    let rest = split sep s in if eqb (code c) sep then String.[] ∷ rest else push c rest

-- `text + more`
unfoldable pub append : String → String → String
append String.[] t = t
append (String.◌∷◌ c s) t = String.◌∷◌ c (append s t)

-- `sep.join(texts)`
unfoldable pub join : String → List String → String
unfolding append
join sep [] = ""
join sep (s ∷ []) = s
join sep (s ∷ t ∷ rest) = append s (append sep (join sep (t ∷ rest)))

-- Python's white space, by code point.
abbrev is_space : ℕ → Bool
is_space c =
    leb 9 c && leb c 13
    || leb 28 c && leb c 32
    || eqb c 133
    || eqb c 160
    || eqb c 5760
    || leb 8192 c && leb c 8202
    || leb 8232 c && leb c 8233
    || eqb c 8239
    || eqb c 8287
    || eqb c 12288

-- `item.strip()` is not empty.
unfoldable pub has_text : String → Bool
has_text String.[] = false
has_text (String.◌∷◌ c s) = if is_space (code c) then has_text s else true

abbrev strip_left : String → String
strip_left String.[] = String.[]
strip_left (String.◌∷◌ c s) =
    let rest = strip_left s in if is_space (code c) then rest else String.◌∷◌ c s

abbrev strip_right : String → String
strip_right String.[] = String.[]
strip_right (String.◌∷◌ c s) =
    let rest = strip_right s in if rest == "" && is_space (code c) then "" else String.◌∷◌ c rest

-- `text.strip()`
unfoldable pub strip : String → String
strip s = strip_right (strip_left s)

-- `text.startswith(prefix)`
unfoldable pub starts_with : String → String → Bool
starts_with text String.[] = true
starts_with String.[] (String.◌∷◌ d prefix) = false
starts_with (String.◌∷◌ c text) (String.◌∷◌ d prefix) =
    if eqb (code c) (code d) then starts_with text prefix else false

-- `needle in text`
unfoldable pub contains : String → String → Bool
unfolding starts_with
contains needle String.[] = starts_with String.[] needle
contains needle (String.◌∷◌ c text) =
    if starts_with (String.◌∷◌ c text) needle then true else contains needle text

-- `set(texts)`
unfoldable pub distinct : List String → List String
distinct [] = []
distinct (p ∷ texts) =
    let rest = distinct texts in if any_by (λ q. q == p) rest then rest else p ∷ rest

-- `text in {…}`
abbrev pub is_one_of : String → List String → Bool
is_one_of text = any_by (λ t. t == text)

abbrev replaced : List (ℕ × String) → Char → String → String
replaced [] c rest = String.◌∷◌ c rest
replaced ((n, s) ∷ table) c rest = if eqb (code c) n then append s rest else replaced table c rest

-- The characters whose upper case is ASCII, with it. Any other character keeps a character outside
-- ASCII, as the character itself is: no comparison with an ASCII text can tell them apart.
abbrev upper_table : List (ℕ × String)
upper_table =
    (97, "A")
    ∷ (98, "B")
    ∷ (99, "C")
    ∷ (100, "D")
    ∷ (101, "E")
    ∷ (102, "F")
    ∷ (103, "G")
    ∷ (104, "H")
    ∷ (105, "I")
    ∷ (106, "J")
    ∷ (107, "K")
    ∷ (108, "L")
    ∷ (109, "M")
    ∷ (110, "N")
    ∷ (111, "O")
    ∷ (112, "P")
    ∷ (113, "Q")
    ∷ (114, "R")
    ∷ (115, "S")
    ∷ (116, "T")
    ∷ (117, "U")
    ∷ (118, "V")
    ∷ (119, "W")
    ∷ (120, "X")
    ∷ (121, "Y")
    ∷ (122, "Z")
    ∷ (223, "SS")
    ∷ (305, "I")
    ∷ (383, "S")
    ∷ (64256, "FF")
    ∷ (64257, "FI")
    ∷ (64258, "FL")
    ∷ (64259, "FFI")
    ∷ (64260, "FFL")
    ∷ (64261, "ST")
    ∷ (64262, "ST")
    ∷ []

-- `text.upper()`, up to characters outside ASCII
unfoldable pub upper : String → String
unfolding append
upper String.[] = String.[]
upper (String.◌∷◌ c text) = replaced upper_table c (upper text)

abbrev lower_table : List (ℕ × String)
lower_table =
    (65, "a")
    ∷ (66, "b")
    ∷ (67, "c")
    ∷ (68, "d")
    ∷ (69, "e")
    ∷ (70, "f")
    ∷ (71, "g")
    ∷ (72, "h")
    ∷ (73, "i")
    ∷ (74, "j")
    ∷ (75, "k")
    ∷ (76, "l")
    ∷ (77, "m")
    ∷ (78, "n")
    ∷ (79, "o")
    ∷ (80, "p")
    ∷ (81, "q")
    ∷ (82, "r")
    ∷ (83, "s")
    ∷ (84, "t")
    ∷ (85, "u")
    ∷ (86, "v")
    ∷ (87, "w")
    ∷ (88, "x")
    ∷ (89, "y")
    ∷ (90, "z")
    ∷ (8490, "k")
    ∷ []

-- `text.lower()`, up to characters outside ASCII
unfoldable pub lower : String → String
unfolding append
lower String.[] = String.[]
lower (String.◌∷◌ c text) = replaced lower_table c (lower text)

upper_mixed : upper "http_429 maß" ≡ "HTTP_429 MASS"
unfolding upper
upper_mixed = refl

contains_inside : contains "exists" "destination exists" ≡ true
unfolding contains
contains_inside = refl
