-- ===== src/Common/Texts.antt =====
-- Texts that the program takes apart, as lists of code points. `lower` and `upper` are
-- Python's on ASCII text, which is all that the program's own names, roles and permissions hold, and
-- leave other characters alone, but for the one whose lower case is an ASCII letter;
-- `strip` takes off every white space of Unicode.
use Prim.Native.Char.{code}
use Prim.Native.Nat.{ℕ, ◌+◌, ◌-◌}
use Prim.Native.String.{String}
use mathlib.Core.Path.{◌≡◌, refl}
use mathlib.Core.Logic.{◌↔◌}
use mathlib.Core.Bool.{Bool, true, false, ◌&&◌, ◌||◌}
use mathlib.Core.List.{List, [], ◌∷◌, map}
use native.Mathlib.Omega.{arith}
use ai_agent_task_assistant.Common.Tests.{leb, nat_eq, if◌then◌else◌}

abbrev pub Text : Type 0
Text = List ℕ

abbrev pub codes : String → Text
codes String.[] = []
codes (String.◌∷◌ c s) = code c ∷ codes s

unfoldable pub text_eq : Text → Text → Bool
text_eq [] [] = true
text_eq (a ∷ s) (b ∷ t) = nat_eq a b && text_eq s t
text_eq _ _ = false

pub text_eq_iff : (s t : Text) → (text_eq s t ≡ true) ↔ (s ≡ t)
unfolding text_eq
text_eq_iff [] [] = ground arith
text_eq_iff (a ∷ s) (b ∷ t) = ground (arith, text_eq_iff s t)
text_eq_iff [] (b ∷ t) = ground arith
text_eq_iff (a ∷ s) [] = ground arith

pub text_eq_refl : (s : Text) → text_eq s s ≡ true
text_eq_refl s = (text_eq_iff s s).1 refl

-- the Kelvin sign is the one other character whose lower case is an ASCII letter
lower_code : ℕ → ℕ
lower_code c = if leb 65 c && leb c 90 then c + 32 else if nat_eq c 8490 then 107 else c

upper_code : ℕ → ℕ
upper_code c = if leb 97 c && leb c 122 then c - 32 else c

unfoldable pub lower : Text → Text
unfolding lower_code
lower s = map lower_code s

unfoldable pub upper : Text → Text
unfolding upper_code
upper s = map upper_code s

-- what `str.isspace` accepts: tab to carriage return, the separators and the space, the next line, the
-- no-break spaces, and the spaces and separators of the other blocks
is_space : ℕ → Bool
is_space c =
    (leb 9 c && leb c 13)
    || (leb 28 c && leb c 32)
    || nat_eq c 133
    || nat_eq c 160
    || nat_eq c 5760
    || (leb 8192 c && leb c 8202)
    || (leb 8232 c && leb c 8233)
    || nat_eq c 8239
    || nat_eq c 8287
    || nat_eq c 12288

lstrip : Text → Text
unfolding is_space
lstrip [] = []
lstrip (c ∷ s) = let rest = lstrip s in if is_space c then rest else c ∷ s

is_blank : Text → Bool
is_blank [] = true
is_blank (_ ∷ _) = false

rstrip : Text → Text
unfolding is_space is_blank
rstrip [] = []
rstrip (c ∷ s) = let rest = rstrip s in if is_space c && is_blank rest then [] else c ∷ rest

unfoldable pub strip : Text → Text
unfolding lstrip rstrip
strip s = rstrip (lstrip s)

unfoldable pub starts_with : Text → Text → Bool
starts_with s [] = true
starts_with [] (_ ∷ _) = false
starts_with (a ∷ s) (b ∷ p) = nat_eq a b && starts_with s p

-- `s.partition(sep)` for a separator of one character: what stands before and behind the first.
unfoldable pub before : ℕ → Text → Text
before sep [] = []
before sep (c ∷ s) = let rest = before sep s in if nat_eq c sep then [] else c ∷ rest

unfoldable pub after : ℕ → Text → Text
after sep [] = []
after sep (c ∷ s) = let rest = after sep s in if nat_eq c sep then s else rest

lower_code_idem : (c : ℕ) → lower_code (lower_code c) ≡ lower_code c
unfolding lower_code
lower_code_idem c = ground arith

pub lower_idem : (s : Text) → lower (lower s) ≡ lower s
unfolding lower
lower_idem [] = refl
lower_idem (c ∷ s) = cc (lower_code_idem c, lower_idem s)

strip_test : strip (codes "  a b ") ≡ codes "a b"
unfolding strip
strip_test = refl

-- an ideographic space is one
strip_wide_test : strip (12288 ∷ 97 ∷ 12288 ∷ []) ≡ 97 ∷ []
unfolding strip
strip_wide_test = refl

-- `p in s`
unfoldable pub contains : Text → Text → Bool
unfolding starts_with
contains p [] = starts_with [] p
contains p (c ∷ s) = starts_with (c ∷ s) p || contains p s

contains_test : contains (codes "rate limit") (codes "http rate limit hit") ≡ true
unfolding contains
contains_test = refl
