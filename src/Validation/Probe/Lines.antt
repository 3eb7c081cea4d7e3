-- ===== src/Validation/Probe/Lines.antt =====
-- The standard library's `lines` and the test `l.trim().is_empty()`, over the characters of a text.
use Prim.Native.Char.{Char, code}
use Prim.Native.String.{String}
use aptp.Prelude.{ℕ, Bool, true, ◌&&◌, ◌||◌, List, [], ◌∷◌, ◌==◌, leb, str_eq, if◌then◌else◌}

-- The property White_Space of Unicode.
is_whitespace : ℕ → Bool
is_whitespace c =
    (leb 9 c && leb c 13)
    || c == 32
    || c == 0x85
    || c == 0xa0
    || c == 0x1680
    || (leb 0x2000 c && leb c 0x200a)
    || c == 0x2028
    || c == 0x2029
    || c == 0x202f
    || c == 0x205f
    || c == 0x3000

-- `l.trim().is_empty()`
unfoldable pub is_blank : String → Bool
unfolding is_whitespace
is_blank String.[] = true
is_blank (String.◌∷◌ c s) = is_whitespace (code c) && is_blank s

cons_first : Char → List String → List String
cons_first c [] = []
cons_first c (piece ∷ pieces) = String.◌∷◌ c piece ∷ pieces

-- The pieces between line feeds, the last one unterminated.
pieces : String → List String
pieces String.[] = "" ∷ []
pieces (String.◌∷◌ c s) = if code c == 10 then "" ∷ pieces s else cons_first c (pieces s)

-- A carriage return before the line feed belongs to the terminator.
strip_return : String → String
strip_return String.[] = ""
strip_return (String.◌∷◌ c s) =
    if (code c == 13) && str_eq s "" then "" else String.◌∷◌ c (strip_return s)

terminated : List String → List String
unfolding strip_return
terminated [] = []
terminated (last ∷ []) = if str_eq last "" then [] else last ∷ []
terminated (piece ∷ rest) = strip_return piece ∷ terminated rest

-- `raw.lines()`
unfoldable pub lines : String → List String
unfolding cons_first pieces terminated
lines raw = terminated (pieces raw)
