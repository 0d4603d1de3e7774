-- ===== src/Common/Text.antt =====
-- Go's `strings` functions that the program uses, over `String`.
use Prim.Native.Char.{Char, code}
use mathlib.Core.List.{List, [], ◌∷◌}
use Prim.Native.String.{String}
use Prim.Native.Nat.{ℕ}
use mathlib.Core.Path.{◌≡◌, refl}
use mathlib.Core.Bool.{Bool, true, false, ◌&&◌, ◌||◌}
use orbitplus.Common.Tests.{leb, ◌==◌, if◌then◌else◌}

-- unicode.IsSpace
unfoldable pub is_space : ℕ → Bool
is_space c =
    (leb 9 c && leb c 13)
    || c == 32
    || c == 0x85
    || c == 0xa0
    || c == 0x1680
    || (leb 0x2000 c && leb c 0x200a)
    || c == 0x2028
    || c == 0x2029
    || c == 0x202f
    || c == 0x205f
    || c == 0x3000

abbrev pub is_empty : String → Bool
is_empty String.[] = true
is_empty (String.◌∷◌ c s) = false

unfoldable pub trim_left : String → String
trim_left String.[] = String.[]
trim_left (String.◌∷◌ c s) = if is_space (code c) then trim_left s else String.◌∷◌ c s

unfoldable pub trim_right : String → String
trim_right String.[] = String.[]
trim_right (String.◌∷◌ c s) =
    let r = trim_right s in if is_empty r && is_space (code c) then String.[] else String.◌∷◌ c r

-- strings.TrimSpace
unfoldable pub trim_space : String → String
unfolding trim_left trim_right is_space
trim_space s = trim_right (trim_left s)

-- strings.TrimSpace(s) == ""
unfoldable pub is_blank : String → Bool
unfolding trim_space
is_blank s = is_empty (trim_space s)

-- strings.Contains(s, c) for one character c
unfoldable pub contains : ℕ → String → Bool
contains d String.[] = false
contains d (String.◌∷◌ c s) = code c == d || contains d s

-- The characters whose upper case is an ASCII letter.
abbrev ascii_uppers : List (ℕ × Char)
ascii_uppers =
    (97, "A")
    ∷ (98, "B")
    ∷ (99, "C")
    ∷ (100, "D")
    ∷ (101, "E")
    ∷ (102, "F")
    ∷ (103, "G")
    ∷ (104, "H")
    ∷ (105, "I")
    ∷ (106, "J")
    ∷ (107, "K")
    ∷ (108, "L")
    ∷ (109, "M")
    ∷ (110, "N")
    ∷ (111, "O")
    ∷ (112, "P")
    ∷ (113, "Q")
    ∷ (114, "R")
    ∷ (115, "S")
    ∷ (116, "T")
    ∷ (117, "U")
    ∷ (118, "V")
    ∷ (119, "W")
    ∷ (120, "X")
    ∷ (121, "Y")
    ∷ (122, "Z")
    ∷ (305, "I")
    ∷ (383, "S")
    ∷ []

abbrev upper_from : List (ℕ × Char) → Char → Char
upper_from [] c = c
upper_from ((n, upper) ∷ rest) c = if code c == n then upper else upper_from rest c

-- strings.ToUpper as far as ASCII letters come out of it. What it makes of other letters is not
-- ASCII, and the program compares the result with ASCII texts only.
unfoldable pub to_upper : String → String
to_upper String.[] = String.[]
to_upper (String.◌∷◌ c s) = String.◌∷◌ (upper_from ascii_uppers c) (to_upper s)

trim_space_runs : trim_space " \t a b\n" ≡ "a b"
unfolding trim_space
trim_space_runs = refl

to_upper_runs : to_upper "SearchBusMap" ≡ "SEARCHBUSMAP"
unfolding to_upper
to_upper_runs = refl
