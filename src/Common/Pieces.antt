-- ===== src/Common/Pieces.antt =====
-- Cutting texts up: more of Go's `strings` functions, over `String`.
use Prim.Native.Char.{Char, code}
use Prim.Native.String.{String}
use Prim.Native.Nat.{ℕ, zero, suc, ◌+◌, ◌-◌}
use mathlib.Core.List.{List, [], ◌∷◌}
use mathlib.Core.Path.{◌≡◌, refl}
use mathlib.Core.Bool.{◌&&◌}
use mathlib.Core.Option.{Option, none, some}
use orbitplus.Common.Tests.{◌==◌, leb, if◌then◌else◌}
use orbitplus.Common.Text.{is_empty}

-- The characters whose lower case is an ASCII letter.
abbrev ascii_lowers : List (ℕ × Char)
ascii_lowers =
    (65, "a")
    ∷ (66, "b")
    ∷ (67, "c")
    ∷ (68, "d")
    ∷ (69, "e")
    ∷ (70, "f")
    ∷ (71, "g")
    ∷ (72, "h")
    ∷ (73, "i")
    ∷ (74, "j")
    ∷ (75, "k")
    ∷ (76, "l")
    ∷ (77, "m")
    ∷ (78, "n")
    ∷ (79, "o")
    ∷ (80, "p")
    ∷ (81, "q")
    ∷ (82, "r")
    ∷ (83, "s")
    ∷ (84, "t")
    ∷ (85, "u")
    ∷ (86, "v")
    ∷ (87, "w")
    ∷ (88, "x")
    ∷ (89, "y")
    ∷ (90, "z")
    ∷ (304, "i")
    ∷ (8490, "k")
    ∷ []

abbrev lower_from : List (ℕ × Char) → Char → Char
lower_from [] c = c
lower_from ((n, lower) ∷ rest) c = if code c == n then lower else lower_from rest c

-- strings.ToLower as far as ASCII letters come out of it. What it makes of other letters is not
-- ASCII, and the program compares the result with ASCII texts only.
unfoldable pub to_lower : String → String
to_lower String.[] = String.[]
to_lower (String.◌∷◌ c s) = String.◌∷◌ (lower_from ascii_lowers c) (to_lower s)

-- strings.TrimRight(s, c) for one character c
unfoldable pub trim_right_of : ℕ → String → String
trim_right_of d String.[] = String.[]
trim_right_of d (String.◌∷◌ c s) =
    let r = trim_right_of d s in if is_empty r && code c == d then String.[] else String.◌∷◌ c r

-- What is before a first piece of text that is cut off at `c`.
abbrev pub in_front : Char → Option (String × String) → Option (String × String)
in_front c none = none
in_front c (some (a, b)) = some (String.◌∷◌ c a, b)

-- strings.Cut(s, c) for one character c
unfoldable pub cut : ℕ → String → Option (String × String)
cut d String.[] = none
cut d (String.◌∷◌ c s) =
    let r = cut d s in if code c == d then some (String.[], s) else in_front c r

abbrev pub last_or : Option (String × String) → Option (String × String) → Option (String × String)
last_or none other = other
last_or (some p) other = some p

-- The text before and after the last `c`: strings.LastIndex with the two slices.
unfoldable pub cut_last : ℕ → String → Option (String × String)
cut_last d String.[] = none
cut_last d (String.◌∷◌ c s) =
    let r = cut_last d s in
    last_or (in_front c r) (if code c == d then some (String.[], s) else none)

abbrev pub add_to_first : Char → List String → List String
add_to_first c [] = String.◌∷◌ c String.[] ∷ []
add_to_first c (piece ∷ pieces) = String.◌∷◌ c piece ∷ pieces

-- strings.Split(s, c) for one character c
unfoldable pub split : ℕ → String → List String
split d String.[] = String.[] ∷ []
split d (String.◌∷◌ c s) =
    let r = split d s in if code c == d then String.[] ∷ r else add_to_first c r

-- len([]rune(s))
unfoldable pub rune_count : String → ℕ
rune_count String.[] = 0
rune_count (String.◌∷◌ c s) = suc (rune_count s)

-- string([]rune(s)[:n])
unfoldable pub take_runes : ℕ → String → String
take_runes zero s = String.[]
take_runes (suc n) String.[] = String.[]
take_runes (suc n) (String.◌∷◌ c s) = String.◌∷◌ c (take_runes n s)

-- The bytes of a character in UTF-8.
unfoldable pub width : ℕ → ℕ
width c = if leb c 127 then 1 else if leb c 2047 then 2 else if leb c 65535 then 3 else 4

-- len(s)
unfoldable pub byte_count : String → ℕ
unfolding width
byte_count String.[] = 0
byte_count (String.◌∷◌ c s) = width (code c) + byte_count s

-- s[:n], without a character that it would cut in two.
unfoldable pub take_bytes : ℕ → String → String
unfolding width
take_bytes n String.[] = String.[]
take_bytes n (String.◌∷◌ c s) =
    let rest = take_bytes (n - width (code c)) s in
    if leb (width (code c)) n then String.◌∷◌ c rest else String.[]

to_lower_runs : to_lower "SearchBusMap" ≡ "searchbusmap"
unfolding to_lower
to_lower_runs = refl

cut_last_runs : cut_last 61 "a=b=c" ≡ some ("a=b", "c")
unfolding cut_last
cut_last_runs = refl

split_runs : split 44 "a,,b" ≡ "a" ∷ "" ∷ "b" ∷ []
unfolding split
split_runs = refl

trim_right_of_runs : trim_right_of 47 "http://x//" ≡ "http://x"
unfolding trim_right_of
trim_right_of_runs = refl
