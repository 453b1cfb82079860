-- ===== src/Mask/Scan.antt =====
-- The operations of str and re that backend/app/services/masking.py uses, on code points.
use metasight.Prelude.{
  Bool, List, Option, Text, [], codes, drop, false, if◌then◌else◌, is_space, keep, leb, length, ltb,
  nat_eq, none, some, string_eq, suc, take, text_eq, true, zero, ℕ, ◌&&◌, ◌++◌, ◌+◌, ◌-◌, ◌==◌,
  ◌||◌, ◌∷◌,
}
use mathlib.Core.List.{reverse}

-- The zeros of the 68 runs of ten decimal digits in Unicode 15, which `\d` matches.

abbrev zeros : List ℕ
zeros =
    0x30 ∷ 0x660 ∷ 0x6f0 ∷ 0x7c0 ∷ 0x966 ∷ 0x9e6 ∷ 0xa66 ∷ 0xae6 ∷ 0xb66 ∷ 0xbe6 ∷ 0xc66 ∷ 0xce6
    ∷ 0xd66 ∷ 0xde6 ∷ 0xe50 ∷ 0xed0 ∷ 0xf20 ∷ 0x1040 ∷ 0x1090 ∷ 0x17e0 ∷ 0x1810 ∷ 0x1946 ∷ 0x19d0
    ∷ 0x1a80 ∷ 0x1a90 ∷ 0x1b50 ∷ 0x1bb0 ∷ 0x1c40 ∷ 0x1c50 ∷ 0xa620 ∷ 0xa8d0 ∷ 0xa900 ∷ 0xa9d0
    ∷ 0xa9f0 ∷ 0xaa50 ∷ 0xabf0 ∷ 0xff10 ∷ 0x104a0 ∷ 0x10d30 ∷ 0x11066 ∷ 0x110f0 ∷ 0x11136 ∷ 0x111d0
    ∷ 0x112f0 ∷ 0x11450 ∷ 0x114d0 ∷ 0x11650 ∷ 0x116c0 ∷ 0x11730 ∷ 0x118e0 ∷ 0x11950 ∷ 0x11c50
    ∷ 0x11d50 ∷ 0x11da0 ∷ 0x11f50 ∷ 0x16a60 ∷ 0x16ac0 ∷ 0x16b50 ∷ 0x1d7ce ∷ 0x1d7d8 ∷ 0x1d7e2
    ∷ 0x1d7ec ∷ 0x1d7f6 ∷ 0x1e140 ∷ 0x1e2f0 ∷ 0x1e4f0 ∷ 0x1e950 ∷ 0x1fbf0 ∷ []

in_run : ℕ → List ℕ → Bool
in_run c [] = false
in_run c (z ∷ zs) = (leb z c && ltb c (z + 10)) || in_run c zs

-- `\d` of one character.
unfoldable pub is_digit : ℕ → Bool
unfolding in_run
is_digit c = in_run c zeros

-- `re.sub(r"\D", "", value)`.
abbrev pub digits_of : Text → Text
digits_of = keep is_digit

-- `s[-n:]`, and `s[:-n]` for a positive n.
abbrev pub last : ℕ → Text → Text
last n s = drop (length s - n) s

abbrev pub but_last : ℕ → Text → Text
but_last n s = take (length s - n) s

-- `re.sub(r"\d", "*", s)`.
unfoldable pub star_digits : Text → Text
star_digits [] = []
star_digits (c ∷ s) = (if is_digit c then b'*' else c) ∷ star_digits s

-- `"*" * n`.
unfoldable pub stars : ℕ → Text
stars zero = []
stars (suc n) = b'*' ∷ stars n

-- `s.split(sep, 1)` where `sep` stands in `s`: what stands before its first place, and after it.
unfoldable pub split_first : ℕ → Text → Option (Text × Text)
split_first sep [] = none
split_first sep (c ∷ s) =
    if c == sep
    then some ([], s)
    else elim (split_first sep s) [ none ↦ none | some (before, after) ↦ some (c ∷ before, after) ]

-- `s.rsplit(sep, 1)` where `sep` stands in `s`, likewise at its last place.
unfoldable pub split_last : ℕ → Text → Option (Text × Text)
split_last sep [] = none
split_last sep (c ∷ s) = elim (split_last sep s) [
  | some (before, after) ↦ some (c ∷ before, after)
  | none ↦ if c == sep then some ([], s) else none
]

-- `s.split(sep)`.
unfoldable pub split_on_from : ℕ → Text → Text → List Text
split_on_from sep part [] = reverse part ∷ []
split_on_from sep part (c ∷ s) =
    let cut = reverse part ∷ split_on_from sep [] s in
    let grown = split_on_from sep (c ∷ part) s in if c == sep then cut else grown

unfoldable pub split_on : ℕ → Text → List Text
unfolding split_on_from
split_on sep s = split_on_from sep [] s

-- `s.split()`: the words between runs of white space.
unfoldable pub words_from : Text → Text → List Text
unfolding is_space
words_from [] [] = []
words_from (d ∷ word) [] = reverse (d ∷ word) ∷ []
words_from [] (c ∷ s) =
    let rest = words_from [] s in
    let grown = words_from (c ∷ []) s in if is_space c then rest else grown
words_from (d ∷ word) (c ∷ s) =
    let cut = reverse (d ∷ word) ∷ words_from [] s in
    let grown = words_from (c ∷ d ∷ word) s in if is_space c then cut else grown

unfoldable pub words : Text → List Text
unfolding words_from
words s = words_from [] s

-- `sep.join(parts)`.
unfoldable pub join : Text → List Text → Text
join sep [] = []
join sep (p ∷ []) = p
join sep (p ∷ q ∷ parts) = p ++ (sep ++ join sep (q ∷ parts))

-- `re.sub(r"^\d+", "***", s)`.
unfoldable pub drop_digits : Text → Text
drop_digits [] = []
drop_digits (c ∷ s) = if is_digit c then drop_digits s else c ∷ s

unfoldable pub star_leading : Text → Text
unfolding drop_digits
star_leading [] = []
star_leading (c ∷ s) = if is_digit c then codes "***" ++ drop_digits s else c ∷ s

-- The digits of a match of `\d{n}` at the start of `s`, and what follows.
unfoldable pub take_digits : ℕ → Text → Option (Text × Text)
take_digits zero s = some ([], s)
take_digits (suc n) [] = none
take_digits (suc n) (c ∷ s) =
    if is_digit c
    then elim (take_digits n s) [ none ↦ none | some (ds, rest) ↦ some (c ∷ ds, rest) ]
    else none

-- `sub in s`, which is `re.search` of a literal.
unfoldable pub starts_with : Text → Text → Bool
starts_with [] s = true
starts_with (c ∷ p) [] = false
starts_with (c ∷ p) (d ∷ s) = c == d && starts_with p s

unfoldable pub contains : Text → Text → Bool
unfolding starts_with
contains p [] = starts_with p []
contains p (c ∷ s) = starts_with p (c ∷ s) || contains p s
