-- ===== src/Text.antt =====
-- Python's `str` operations as the agents use them, on lists of code points. The tables of
-- white space, digits, letters and case are those of Latin-1, with all the white space of Unicode.
use Prim.Native.Char.{code}
use ecommerce_sales_agent.Prelude.{
  ◌≡◌, refl, arith, ℕ, zero, suc, ◌+◌, ◌-◌, ◌*◌, ◌/◌, ◌%◌, String, Bool, true, false, not, ◌&&◌,
  ◌||◌, Option, none, some, List, [], ◌∷◌, ◌++◌, map, ltb, leb, ◌==◌, if◌then◌else◌, length, is_nil,
  any, all,
}

abbrev pub Text : Type 0
Text = List ℕ

-- The code points of a literal.
abbrev pub codes : String → Text
codes String.[] = []
codes (String.◌∷◌ c s) = code c ∷ codes s

abbrev pub text_eq : Text → Text → Bool
text_eq [] [] = true
text_eq [] (d ∷ t) = false
text_eq (c ∷ s) [] = false
text_eq (c ∷ s) (d ∷ t) = c == d && text_eq s t

pub text_eq_refl : (s : Text) → text_eq s s ≡ true
text_eq_refl [] = refl
text_eq_refl (c ∷ s) = ground (arith, text_eq_refl s)

pub text_eq→eq : (s t : Text) → text_eq s t ≡ true → s ≡ t
text_eq→eq [] [] h = refl
text_eq→eq [] (d ∷ t) h = cc
text_eq→eq (c ∷ s) [] h = cc
text_eq→eq (c ∷ s) (d ∷ t) h = ground (arith, text_eq→eq s t)

abbrev between : ℕ → ℕ → ℕ → Bool
between lo hi c = leb lo c && leb c hi

-- `str.isspace`, and `\s` of `re`
unfoldable pub is_space : ℕ → Bool
is_space c =
    between 9 13 c
    || between 28 32 c
    || c == 0x85
    || c == 0xA0
    || c == 0x1680
    || between 0x2000 0x200A c
    || between 0x2028 0x2029 c
    || c == 0x202F
    || c == 0x205F
    || c == 0x3000

-- `str.isdigit` also accepts the superscript digits, `int` and `\d` do not.
unfoldable pub is_decimal : ℕ → Bool
is_decimal c = between 48 57 c

unfoldable pub is_digit : ℕ → Bool
unfolding is_decimal
is_digit c = is_decimal c || c == 0xB2 || c == 0xB3 || c == 0xB9

unfoldable pub is_letter : ℕ → Bool
is_letter c = between 65 90 c || between 97 122 c

-- `\w` of `re`
unfoldable pub is_word : ℕ → Bool
unfolding is_letter is_digit
is_word c =
    is_letter c
    || is_digit c
    || c == b'_'
    || c == 0xAA
    || c == 0xB5
    || c == 0xBA
    || between 0xBC 0xBE c
    || (between 0xC0 0xFF c && not (c == 0xD7) && not (c == 0xF7))

unfoldable pub is_upper : ℕ → Bool
is_upper c = between 65 90 c || (between 0xC0 0xDE c && not (c == 0xD7))

unfoldable pub lower_char : ℕ → ℕ
unfolding is_upper
lower_char c = if is_upper c then c + 32 else c

unfoldable pub lower : Text → Text
unfolding lower_char
lower = map lower_char

unfoldable pub lstrip_of : (ℕ → Bool) → Text → Text
lstrip_of p [] = []
lstrip_of p (c ∷ s) = let rest = lstrip_of p s in if p c then rest else c ∷ s

unfoldable pub rstrip_of : (ℕ → Bool) → Text → Text
rstrip_of p [] = []
rstrip_of p (c ∷ s) = let rest = rstrip_of p s in if is_nil rest && p c then [] else c ∷ rest

unfoldable pub strip_of : (ℕ → Bool) → Text → Text
unfolding lstrip_of rstrip_of
strip_of p s = rstrip_of p (lstrip_of p s)

-- `str.strip()`
unfoldable pub strip : Text → Text
unfolding strip_of is_space
strip = strip_of is_space

-- `c in chars`, for the characters that `strip(chars)` takes off
unfoldable pub one_of : Text → ℕ → Bool
one_of chars c = any (λ d. c == d) chars

abbrev flush : Text → List Text → List Text
flush [] words = words
flush (c ∷ cur) words = (c ∷ cur) ∷ words

split_from : Text → Text → List Text
split_from cur [] = flush cur []
split_from cur (c ∷ s) =
    let closed = flush cur (split_from [] s) in
    let longer = split_from (cur ++ (c ∷ [])) s in if is_space c then closed else longer

-- `str.split()`
unfoldable pub split : Text → List Text
unfolding split_from is_space
split = split_from []

-- `" ".join`
unfoldable pub join : Text → List Text → Text
join sep [] = []
join sep (w ∷ []) = w
join sep (w ∷ v ∷ words) = w ++ (sep ++ join sep (v ∷ words))

unfoldable pub starts_with : Text → Text → Bool
starts_with [] s = true
starts_with (c ∷ prefix) [] = false
starts_with (c ∷ prefix) (d ∷ s) = c == d && starts_with prefix s

-- `sub in s`
unfoldable pub contains : Text → Text → Bool
unfolding starts_with
contains sub [] = is_nil sub
contains sub (c ∷ s) = starts_with sub (c ∷ s) || contains sub s

-- `skip` is what is left of an occurrence that has been replaced.
replace_from : Text → Text → ℕ → Text → Text
replace_from old new skip [] = []
replace_from old new (suc k) (c ∷ s) = replace_from old new k s
replace_from old new zero (c ∷ s) =
    let found = starts_with old (c ∷ s) in
    let rest = replace_from old new (if found then length old - 1 else 0) s in
    if found then new ++ rest else c ∷ rest

-- `str.replace`, for an `old` that is not empty
unfoldable pub replace : Text → Text → Text → Text
unfolding replace_from starts_with
replace old new = replace_from old new 0

-- `tok.isdigit()`
unfoldable pub isdigit : Text → Bool
unfolding is_digit
isdigit tok = not (is_nil tok) && all is_digit tok

digits_value : ℕ → Text → Option ℕ
digits_value acc [] = some acc
digits_value acc (c ∷ s) =
    let rest = digits_value (acc * 10 + (c - 48)) s in if is_decimal c then rest else none

-- `int(tok)`, for a token without a sign; `none` is the `ValueError`
unfoldable pub int_of : Text → Option ℕ
unfolding digits_value is_decimal
int_of [] = none
int_of (c ∷ s) = digits_value 0 (c ∷ s)

-- The fuel is the number itself: ten times fewer rounds are made.
show_from : ℕ → ℕ → Text → Text
show_from zero n acc = (48 + n % 10) ∷ acc
show_from (suc fuel) n acc =
    let rest = show_from fuel (n / 10) ((48 + n % 10) ∷ acc) in
    if ltb n 10 then (48 + n) ∷ acc else rest

-- `str(n)`
unfoldable pub show_nat : ℕ → Text
unfolding show_from
show_nat n = show_from n n []
