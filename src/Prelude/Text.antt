-- ===== src/Prelude/Text.antt =====
-- Python's `str` methods that the program calls, over native texts.
use Prim.Native.Nat.{ℕ, ◌-◌}
use Prim.Native.Char.{Char, code}
use Prim.Native.String.{String, char_at}
use mathlib.Core.Bool.{Bool, true, false, not, ◌&&◌, ◌||◌}
use text.Mathlib.Text.{◌==◌ as str_eq}
use gis_agent.Prelude.Tests.{leb, ◌==◌, if◌then◌else◌}

-- `bool(s)`
abbrev pub non_empty : String → Bool
non_empty String.[] = false
non_empty (String.◌∷◌ c s) = true

-- The code points that `str.isspace` accepts.
unfoldable pub is_space : ℕ → Bool
is_space n =
    leb 9 n && leb n 13
    || leb 28 n && leb n 32
    || n == 0x85
    || n == 0xA0
    || n == 0x1680
    || leb 0x2000 n && leb n 0x200A
    || n == 0x2028
    || n == 0x2029
    || n == 0x202F
    || n == 0x205F
    || n == 0x3000

unfoldable pub lstrip : String → String
unfolding is_space
lstrip String.[] = ""
lstrip (String.◌∷◌ c s) = let rest = lstrip s in if is_space (code c) then rest else String.◌∷◌ c s

unfoldable pub rstrip : String → String
unfolding is_space
rstrip String.[] = ""
rstrip (String.◌∷◌ c s) =
    let rest = rstrip s in
    if is_space (code c) && not (non_empty rest) then "" else String.◌∷◌ c rest

unfoldable pub strip : String → String
unfolding lstrip rstrip
strip s = rstrip (lstrip s)

-- `str.lower` on one character. Beyond ASCII only the Kelvin sign lowers to an ASCII letter, and
-- the program compares lowered texts with ASCII words alone, so other characters stay.
unfoldable pub lower_char : Char → Char
lower_char c =
    let n = code c in
    if leb 65 n && leb n 90
    then char_at "abcdefghijklmnopqrstuvwxyz" (n - 65)
    else if n == 0x212A
    then "k"
    else c

unfoldable pub lower : String → String
unfolding lower_char
lower String.[] = ""
lower (String.◌∷◌ c s) = String.◌∷◌ (lower_char c) (lower s)

-- `s.endswith(t)`
unfoldable pub ends_with : String → String → Bool
ends_with String.[] t = not (non_empty t)
ends_with (String.◌∷◌ c s) t = str_eq (String.◌∷◌ c s) t || ends_with s t

-- `s[:-2]`
unfoldable pub drop_last_two : String → String
drop_last_two String.[] = ""
drop_last_two (String.◌∷◌ _ String.[]) = ""
drop_last_two (String.◌∷◌ _ (String.◌∷◌ _ String.[])) = ""
drop_last_two (String.◌∷◌ c (String.◌∷◌ d (String.◌∷◌ e s))) =
    String.◌∷◌ c (drop_last_two (String.◌∷◌ d (String.◌∷◌ e s)))

-- `s + t`
abbrev pub append_text : String → String → String
append_text String.[] t = t
append_text (String.◌∷◌ c s) t = String.◌∷◌ c (append_text s t)

-- `str.upper` on one character, exact as far as ASCII letters come out: these are the characters
-- beyond ASCII that have only such letters as their upper case.
unfoldable pub upper_char : Char → String
upper_char c =
    let n = code c in
    if leb 97 n && leb n 122
    then String.◌∷◌ (char_at "ABCDEFGHIJKLMNOPQRSTUVWXYZ" (n - 97)) ""
    else if n == 0x131
    then "I"
    else if n == 0x17F
    then "S"
    else if n == 0xDF
    then "SS"
    else if n == 0xFB00
    then "FF"
    else if n == 0xFB01
    then "FI"
    else if n == 0xFB02
    then "FL"
    else if n == 0xFB03
    then "FFI"
    else if n == 0xFB04
    then "FFL"
    else if leb 0xFB05 n && leb n 0xFB06
    then "ST"
    else String.◌∷◌ c ""

unfoldable pub upper : String → String
unfolding upper_char
upper String.[] = ""
upper (String.◌∷◌ c s) = append_text (upper_char c) (upper s)

-- `s.replace(" ", "_")`
unfoldable pub underscored : String → String
underscored String.[] = ""
underscored (String.◌∷◌ c s) =
    let rest = underscored s in if code c == 32 then append_text "_" rest else String.◌∷◌ c rest
