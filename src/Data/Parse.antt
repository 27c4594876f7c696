-- ===== src/Data/Parse.antt =====
-- `str::parse` into unsigned integers, `str::trim`, `str::strip_prefix` and the like, on texts as
-- lists of their characters' numbers.
use Prim.Native.Char.{code}
use Prim.Native.String.{String, ◌∷◌ as str_cons, [] as str_nil}
use platarium_core.Data.Int.{ℤ, pos, negsuc}
use platarium_core.Base.{
  ℕ, zero, suc, ◌+◌, ◌-◌, ◌*◌, Bool, true, false, ◌&&◌, ◌||◌, Option, none, some, List, [], ◌∷◌,
  ltb, leb, ◌==◌, if◌then◌else◌,
}

abbrev pub codes : String → List ℕ
codes str_nil = []
codes (str_cons c s) = code c ∷ codes s

-- Each round multiplies by ten and adds the digit, both checked against the type's bound.
unfoldable pub parse_digits : ℕ → ℕ → List ℕ → Option ℕ
parse_digits w acc [] = some acc
parse_digits w acc (c ∷ cs) =
    let next = acc * 10 + (c - b'0') in
    let rest = parse_digits w next cs in
    if ltb c b'0' || ltb b'9' c || leb w next then none else rest

-- `parse::<u64>()` and `parse::<u128>()`, for the modulus of the type: one leading `+` is allowed.
unfoldable pub parse_uint : ℕ → List ℕ → Option ℕ
unfolding parse_digits
parse_uint w [] = none
parse_uint w (c ∷ []) = if c == b'+' then none else parse_digits w 0 (c ∷ [])
parse_uint w (c ∷ d ∷ cs) =
    if c == b'+' then parse_digits w 0 (d ∷ cs) else parse_digits w 0 (c ∷ d ∷ cs)

-- `char::is_whitespace`
abbrev pub is_whitespace : ℕ → Bool
is_whitespace c =
    (leb 9 c && leb c 13)
    || c == 32
    || c == 133
    || c == 160
    || c == 5760
    || (leb 8192 c && leb c 8202)
    || c == 8232
    || c == 8233
    || c == 8239
    || c == 8287
    || c == 12288

abbrev pub trim_start : List ℕ → List ℕ
trim_start [] = []
trim_start (c ∷ cs) = let rest = trim_start cs in if is_whitespace c then rest else c ∷ cs

abbrev pub trim_end : List ℕ → List ℕ
trim_end [] = []
trim_end (c ∷ cs) = elim (trim_end cs) [
  | [] ↦ if is_whitespace c then [] else c ∷ []
  | d ∷ ds ↦ c ∷ d ∷ ds
]

abbrev pub trim : List ℕ → List ℕ
trim cs = trim_end (trim_start cs)

-- `trim` of a text, as a text
abbrev pub trim_start_text : String → String
trim_start_text str_nil = str_nil
trim_start_text (str_cons c s) =
    let rest = trim_start_text s in if is_whitespace (code c) then rest else str_cons c s

abbrev pub trim_end_text : String → String
trim_end_text str_nil = str_nil
trim_end_text (str_cons c s) = elim (trim_end_text s) [
  | str_nil ↦ if is_whitespace (code c) then str_nil else str_cons c str_nil
  | str_cons d rest ↦ str_cons c (str_cons d rest)
]

abbrev pub trim_text : String → String
trim_text s = trim_end_text (trim_start_text s)

-- `parse::<i64>()`: a sign and digits; a minus allows one more than a plus.
abbrev pub negative : Option ℕ → Option ℤ
negative none = none
negative (some zero) = some (pos 0)
negative (some (suc n)) = some (negsuc n)

abbrev pub positive : Option ℕ → Option ℤ
positive none = none
positive (some n) = some (pos n)

abbrev pub i64_bound : ℕ
i64_bound = 9_223_372_036_854_775_808

unfoldable pub parse_int : List ℕ → Option ℤ
unfolding parse_digits
parse_int [] = none
parse_int (c ∷ []) =
    if c == b'+' || c == b'-' then none else positive (parse_digits i64_bound 0 (c ∷ []))
parse_int (c ∷ d ∷ cs) =
    if c == b'+'
    then positive (parse_digits i64_bound 0 (d ∷ cs))
    else if c == b'-'
    then negative (parse_digits (i64_bound + 1) 0 (d ∷ cs))
    else positive (parse_digits i64_bound 0 (c ∷ d ∷ cs))

-- `strip_prefix`, and `starts_with` where it returns a rest
unfoldable pub strip_prefix : String → String → Option String
strip_prefix str_nil s = some s
strip_prefix (str_cons c p) str_nil = none
strip_prefix (str_cons c p) (str_cons d s) =
    let rest = strip_prefix p s in if code c == code d then rest else none

-- `starts_with` of bytes
abbrev pub starts_with : List ℕ → List ℕ → Bool
starts_with bytes [] = true
starts_with [] (p ∷ ps) = false
starts_with (b ∷ bs) (p ∷ ps) = b == p && starts_with bs ps
