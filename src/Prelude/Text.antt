-- ===== src/Prelude/Text.antt =====
-- Rust's `String`: concatenation as in `format!`, decimal integers, and the bytes of UTF-8.
use Prim.Native.Nat.{ℕ, zero, suc, ◌+◌, ◌/◌, ◌%◌}
use Prim.Native.Char.{code}
use Prim.Native.String.{String, ◌++◌ as concat}
use mathlib.Core.List.{List, [], ◌∷◌, ◌++◌}
use aptp.Prelude.Tests.{ltb, ◌==◌, if◌then◌else◌}

infixr 65 ◌<>◌
abbrev pub ◌<>◌ : String → String → String
s <> t = concat s t

digit : ℕ → String
digit d =
    if d == 0
    then "0"
    else if d == 1
    then "1"
    else if d == 2
    then "2"
    else if d == 3
    then "3"
    else if d == 4
    then "4"
    else if d == 5
    then "5"
    else if d == 6
    then "6"
    else if d == 7
    then "7"
    else if d == 8
    then "8"
    else "9"

-- At most as many digits as the fuel says.
decimal : ℕ → ℕ → String
decimal zero n = ""
decimal (suc fuel) n =
    let front = decimal fuel (n / 10) in if ltb n 10 then digit n else front <> digit (n % 10)

-- `{}` of an unsigned integer: 20 digits hold every `u64`, since 2 ^ 64 < 10 ^ 20.
unfoldable pub show_nat : ℕ → String
unfolding decimal digit
show_nat n = decimal 20 n

-- The UTF-8 encoding of one code point.
encode : ℕ → List ℕ
encode c =
    if ltb c 0x80
    then c ∷ []
    else if ltb c 0x800
    then (0xc0 + c / 0x40) ∷ (0x80 + c % 0x40) ∷ []
    else if ltb c 0x10000
    then (0xe0 + c / 0x1000) ∷ (0x80 + c / 0x40 % 0x40) ∷ (0x80 + c % 0x40) ∷ []
    else (0xf0 + c / 0x40000)
      ∷ (0x80 + c / 0x1000 % 0x40)
      ∷ (0x80 + c / 0x40 % 0x40)
      ∷ (0x80 + c % 0x40)
      ∷ []

-- `s.as_bytes()`
unfoldable pub as_bytes : String → List ℕ
unfolding encode
as_bytes String.[] = []
as_bytes (String.◌∷◌ c s) = encode (code c) ++ as_bytes s
