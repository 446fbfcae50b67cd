-- ===== src/Common/Text.antt =====
-- What the code uses of Go's package strings.
use Prim.Native.Char.{Char}
use Prim.Native.Nat.{ℕ, zero, suc, ◌-◌}
use Prim.Native.String.{String, [], ◌∷◌, ◌++◌}
use mathlib.Core.Bool.{Bool, true, false, ◌&&◌}
use mathlib.Core.Option.{Option, none, some}
use mathlib.Core.List.{List, [], ◌∷◌}
use text.Mathlib.Text.{starts_with}
use windows_machine_config_o.Common.Tests.{◌==◌, if◌then◌else◌}
use windows_machine_config_o.Common.Lists.{any}

unfoldable pub text_size : String → ℕ
text_size [] = 0
text_size (c ∷ s) = suc (text_size s)

-- The characters of Unicode with the property White_Space.
abbrev spaces : List String
spaces =
    "\t" ∷ "\n" ∷ "\u{b}" ∷ "\u{c}" ∷ "\r" ∷ " " ∷ "\u{85}" ∷ "\u{a0}" ∷ "\u{1680}" ∷ "\u{2000}"
    ∷ "\u{2001}" ∷ "\u{2002}" ∷ "\u{2003}" ∷ "\u{2004}" ∷ "\u{2005}" ∷ "\u{2006}" ∷ "\u{2007}"
    ∷ "\u{2008}" ∷ "\u{2009}" ∷ "\u{200a}" ∷ "\u{2028}" ∷ "\u{2029}" ∷ "\u{202f}" ∷ "\u{205f}"
    ∷ "\u{3000}" ∷ []

abbrev is_space : Char → Bool
is_space c = any (λ w. (c ∷ []) == w) spaces

unfoldable pub trim_left : String → String
trim_left [] = []
trim_left (c ∷ s) = let rest = trim_left s in if is_space c then rest else c ∷ s

unfoldable pub trim_right : String → String
trim_right [] = []
trim_right (c ∷ s) = let rest = trim_right s in if is_space c && (rest == "") then [] else c ∷ rest

unfoldable pub trim_space : String → String
unfolding trim_left trim_right
trim_space s = trim_right (trim_left s)

-- The rest of a text of which `skip` characters are left out; `old` is not empty.
unfoldable pub replace_from : String → String → ℕ → String → String
unfolding text_size
replace_from old new skip [] = []
replace_from old new (suc skip) (c ∷ s) = replace_from old new skip s
replace_from old new zero (c ∷ s) = elim (starts_with (c ∷ s) old) [
  | true ↦ new ++ replace_from old new (text_size old - 1) s
  | false ↦ c ∷ replace_from old new zero s
]

-- The replacement of the empty text: at the front and behind each character.
unfoldable pub interleave : String → String → String
interleave new [] = new
interleave new (c ∷ s) = new ++ (c ∷ interleave new s)

unfoldable pub replace_all : String → String → String → String
unfolding replace_from interleave
replace_all s old new = if old == "" then interleave new s else replace_from old new 0 s

unfoldable pub drop_text : ℕ → String → String
drop_text zero s = s
drop_text (suc n) [] = []
drop_text (suc n) (c ∷ s) = drop_text n s

unfoldable pub trim_prefix : String → String → String
unfolding text_size drop_text
trim_prefix s prefix = if starts_with s prefix then drop_text (text_size prefix) s else s

-- `filepath.Base`.
unfoldable pub strip_slashes : String → String
strip_slashes [] = []
strip_slashes (c ∷ s) =
    let rest = strip_slashes s in if ((c ∷ []) == "/") && (rest == "") then [] else c ∷ rest

unfoldable pub behind_last_slash : String → Option String
behind_last_slash [] = none
behind_last_slash (c ∷ s) = elim (behind_last_slash s) [
  | some t ↦ some t
  | none ↦ if (c ∷ []) == "/" then some s else none
]

unfoldable pub path_base : String → String
unfolding strip_slashes behind_last_slash
path_base s =
    if s == ""
    then "."
    else (if strip_slashes s == ""
        then "/"
        else (elim (behind_last_slash (strip_slashes s)) [ none ↦ strip_slashes s | some t ↦ t ]))

abbrev put_first : Char → Option (String × String) → Option (String × String)
put_first c none = none
put_first c (some (before, after)) = some (c ∷ before, after)

-- `strings.SplitN(s, sep, 2)`, for a separator that is not empty: both parts, where there are two.
unfoldable pub cut : String → String → Option (String × String)
unfolding drop_text text_size
cut sep [] = none
cut sep (c ∷ s) =
    let later = cut sep s in
    if starts_with (c ∷ s) sep
    then some ([], drop_text (text_size sep) (c ∷ s))
    else put_first c later

-- `strings.Split`; each part takes one round.
unfoldable pub split_rounds : ℕ → String → String → List String
unfolding cut
split_rounds zero sep s = s ∷ []
split_rounds (suc n) sep s = elim (cut sep s) [
  | none ↦ s ∷ []
  | some parts ↦ parts.0 ∷ split_rounds n sep parts.1
]

unfoldable pub split_text : String → String → List String
unfolding split_rounds text_size
split_text sep s = split_rounds (text_size s) sep s
