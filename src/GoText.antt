-- ===== src/GoText.antt =====
-- Go strings, and the functions of the packages strings and strconv that the server calls. A string
-- is the list of its bytes, and a literal is ASCII. It models no code of the repository itself.
pub mod Laws
pub mod Split
pub mod Numbers
use Prim.Native.Char.{code}
use Prim.Native.String.{String}
use mathlib.Core.List.{reverse}
use rtz_server.Base.{
  ℕ, ◌+◌, ◌-◌, Bool, true, false, ◌&&◌, ◌||◌, List, [], ◌∷◌, ◌++◌, Option, none, some, leb, ltb,
  ◌==◌, if◌then◌else◌,
}

abbrev pub Str : Type 0
Str = List ℕ

abbrev pub codes : String → Str
codes String.[] = []
codes (String.◌∷◌ c s) = code c ∷ codes s

-- s == t
unfoldable pub str_eq : Str → Str → Bool
str_eq [] [] = true
str_eq [] (_ ∷ _) = false
str_eq (_ ∷ _) [] = false
str_eq (c ∷ s) (d ∷ t) = c == d && str_eq s t

-- s == ""
unfoldable pub is_empty : Str → Bool
is_empty [] = true
is_empty (_ ∷ _) = false

-- strings.HasPrefix(s, p)
unfoldable pub has_prefix : Str → Str → Bool
has_prefix _ [] = true
has_prefix [] (_ ∷ _) = false
has_prefix (c ∷ s) (d ∷ p) = c == d && has_prefix s p

-- s without its first bytes, as many as p has
unfoldable pub skip : Str → Str → Str
skip s [] = s
skip [] (_ ∷ _) = []
skip (_ ∷ s) (_ ∷ p) = skip s p

-- strings.TrimPrefix(s, p)
unfoldable pub trim_prefix : Str → Str → Str
unfolding has_prefix skip
trim_prefix s p = if has_prefix s p then skip s p else s

-- strings.HasSuffix(s, p) and strings.TrimSuffix(s, p), from the end
unfoldable pub has_suffix : Str → Str → Bool
unfolding has_prefix
has_suffix s p = has_prefix (reverse s) (reverse p)

unfoldable pub trim_suffix : Str → Str → Str
unfolding trim_prefix
trim_suffix s p = reverse (trim_prefix (reverse s) (reverse p))

-- strings.Contains(s, p)
unfoldable pub contains : Str → Str → Bool
unfolding has_prefix is_empty
contains [] p = is_empty p
contains (c ∷ s) p = has_prefix (c ∷ s) p || contains s p

-- strings.TrimLeft, TrimRight and TrimSpace over the bytes that `cut` picks
unfoldable pub trim_left : (ℕ → Bool) → Str → Str
trim_left cut [] = []
trim_left cut (c ∷ s) = let rest = trim_left cut s in if cut c then rest else c ∷ s

unfoldable pub trim_right : (ℕ → Bool) → Str → Str
unfolding trim_left
trim_right cut s = reverse (trim_left cut (reverse s))

unfoldable pub trim : (ℕ → Bool) → Str → Str
unfolding trim_right
trim cut s = trim_right cut (trim_left cut s)

-- The white space of ASCII, which is all that `strings.TrimSpace` cuts from an ASCII text.
abbrev pub is_space : ℕ → Bool
is_space c = c == 32 || leb 9 c && leb c 13

-- strings.Split(s, sep) for a separator of one byte
unfoldable pub split_from : ℕ → Str → Str → List Str
split_from sep cur [] = reverse cur ∷ []
split_from sep cur (c ∷ s) = elim (c == sep) [
  | true ↦ reverse cur ∷ split_from sep [] s
  | false ↦ split_from sep (c ∷ cur) s
]

unfoldable pub split : Str → ℕ → List Str
unfolding split_from
split s sep = split_from sep [] s

-- strings.Join(parts, sep) for a separator of one byte
unfoldable pub join : List Str → ℕ → Str
join [] sep = []
join (p ∷ []) sep = p
join (p ∷ q ∷ ps) sep = p ++ (sep ∷ join (q ∷ ps) sep)
