-- ===== src/Prelude/Text.antt =====
-- Texts as Python's `str`: case, search, strip, decimal numbers. Letters are those of ASCII.
use Prim.Native.Nat.{ℕ, zero, suc, ◌+◌, ◌-◌, ◌/◌, ◌%◌}
use Prim.Native.Char.{Char, code}
use Prim.Native.String
use Prim.Native.String.{String}
use text.Mathlib.Text.{◌==◌, starts_with}
use mathlib.Core.Path.{◌≡◌, refl}
use mathlib.Core.Logic.{◌↔◌}
use native.Mathlib.Omega.{arith}
use text.Mathlib.TextEquality.{eq_iff}
use mathlib.Core.Bool.{Bool, true, false, ◌&&◌, ◌||◌, not}
use mathlib.Core.List.{List, [], ◌∷◌, reverse}
use mathlib.Core.Option.{Option, none, some}
use integrated_work_tll.Prelude.Tests.{ltb, leb, eqb, if◌then◌else◌}
use integrated_work_tll.Prelude.Lists.{any, select}

infixr 65 ◌&◌
abbrev pub ◌&◌ : String → String → String
s & t = String.◌++◌ s t

-- The code points of a text.
abbrev pub codes : String → List ℕ
codes String.[] = []
codes (String.◌∷◌ c s) = code c ∷ codes s

abbrev pub lower_char : Char → Char
lower_char c =
    if leb b'A' (code c) && leb (code c) b'Z'
    then String.char_at "abcdefghijklmnopqrstuvwxyz" (code c - 65)
    else c

abbrev pub upper_char : Char → Char
upper_char c =
    if leb b'a' (code c) && leb (code c) b'z'
    then String.char_at "ABCDEFGHIJKLMNOPQRSTUVWXYZ" (code c - 97)
    else c

-- `s.lower()` and `s.upper()`.
unfoldable pub lower : String → String
lower String.[] = ""
lower (String.◌∷◌ c s) = String.◌∷◌ (lower_char c) (lower s)

unfoldable pub upper : String → String
upper String.[] = ""
upper (String.◌∷◌ c s) = String.◌∷◌ (upper_char c) (upper s)

-- `t in s`.
unfoldable pub contains : String → String → Bool
contains String.[] t = t == ""
contains (String.◌∷◌ c s) t = starts_with (String.◌∷◌ c s) t || contains s t

-- `any(k in s for k in keywords)`.
unfoldable pub mentions : List String → String → Bool
unfolding contains
mentions keywords s = any (contains s) keywords

-- `x in xs` for a text.
abbrev pub elem : String → List String → Bool
elem x [] = false
elem x (y ∷ ys) = y == x || elem x ys

pub elem-select :
    (p : String → Bool) (x : String) (xs : List String) → elem x (select p xs) ≡ (p x && elem x xs)
elem-select p x [] = ground arith
elem-select p x (y ∷ ys) = ground (arith, eq_iff y x, elem-select p x ys)

-- `sep.join(parts)`.
unfoldable pub join : String → List String → String
join sep [] = ""
join sep (x ∷ []) = x
join sep (x ∷ y ∷ ys) = x & sep & join sep (y ∷ ys)

-- What `str.strip` takes off, as a code point.
is_space : ℕ → Bool
is_space c =
    leb 9 c && leb c 13
    || leb 28 c && leb c 32
    || eqb c 0x85
    || eqb c 0xa0
    || eqb c 0x1680
    || leb 0x2000 c && leb c 0x200a
    || eqb c 0x2028
    || eqb c 0x2029
    || eqb c 0x202f
    || eqb c 0x205f
    || eqb c 0x3000

skip_spaces : List ℕ → List ℕ
unfolding is_space
skip_spaces [] = []
skip_spaces (c ∷ cs) = if is_space c then skip_spaces cs else c ∷ cs

-- `s.strip()`, over code points.
unfoldable pub strip : List ℕ → List ℕ
unfolding skip_spaces
strip cs = reverse (skip_spaces (reverse (skip_spaces cs)))

-- `s.strip()`.
strip_start : String → String
unfolding is_space
strip_start String.[] = ""
strip_start (String.◌∷◌ c s) = if is_space (code c) then strip_start s else String.◌∷◌ c s

strip_end : String → String
unfolding is_space
strip_end String.[] = ""
strip_end (String.◌∷◌ c s) =
    let rest = strip_end s in if rest == "" && is_space (code c) then "" else String.◌∷◌ c rest

unfoldable pub strip_text : String → String
unfolding strip_start strip_end
strip_text s = strip_end (strip_start s)

-- The decimal digits of a number; fuel above the number is enough.
digits_of : ℕ → ℕ → String
digits_of zero n = ""
digits_of (suc f) n =
    let digit = String.slice "0123456789" (n % 10) (n % 10 + 1) in
    let more = digits_of f (n / 10) & digit in if ltb n 10 then digit else more

unfoldable pub show_ℕ : ℕ → String
unfolding digits_of
show_ℕ n = digits_of (suc n) n

-- `f"{o}"` of an optional text.
abbrev pub show_option : Option String → String
show_option none = "None"
show_option (some s) = s

-- Equality of optional texts.
abbrev pub option_eq : Option String → Option String → Bool
option_eq none none = true
option_eq none (some t) = false
option_eq (some s) none = false
option_eq (some s) (some t) = s == t

pub option_eq_iff : (s t : Option String) → (option_eq s t ≡ true) ↔ (s ≡ t)
option_eq_iff none none = ground arith
option_eq_iff none (some t) = ground arith
option_eq_iff (some s) none = ground arith
option_eq_iff (some s) (some t) = ground (arith, eq_iff s t)

-- `o or ""`, and the truth of an optional text.
abbrev pub or_empty : Option String → String
or_empty none = ""
or_empty (some s) = s

abbrev pub is_given : Option String → Bool
is_given o = not (or_empty o == "")

text_samples :
    (lower "Admin/Config" ≡ "admin/config")
    × (upper "delete" ≡ "DELETE")
    × (contains "/api/admin/x" "admin" ≡ true)
    × (show_ℕ 2040 ≡ "2040")
    × (join ", " ("a" ∷ "b" ∷ "c" ∷ []) ≡ "a, b, c")
    × (strip (codes " \n a b\t") ≡ codes "a b")
    × (strip_text " \n a b\t" ≡ "a b")
unfolding lower upper contains show_ℕ join strip strip_text
text_samples = (refl, refl, refl, refl, refl, refl, refl)
