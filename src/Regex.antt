-- ===== src/Regex.antt =====
-- The patterns of Python's `re` that the purchase node compiles, as data, with a matcher that
-- lists the ways to match in the order in which a backtracking engine tries them.
use mathlib.Core.List.{flat_map}
use ecommerce_sales_agent.Prelude.{
  ℕ, ◌-◌, Bool, true, false, not, Option, none, some, List, [], ◌∷◌, ◌++◌, ◌==◌, if◌then◌else◌,
  length, take, is_nil, String,
}
use ecommerce_sales_agent.Text.{Text, codes, is_word, is_space, lower_char}

-- A repetition is always of one class of characters.
pub data Re : Type 0 where
  eps : Re
  chr : ℕ → Re
  cls : (ℕ → Bool) → Re
  star : (ℕ → Bool) → Re
  seq : Re → Re → Re
  alt : Re → Re → Re
  word_edge : Re
  end : Re
  group : ℕ → Re → Re

-- A position in the subject: the character before it, what follows, and the groups so far.
pub record Point : Type 0 where
  pub prev : Option ℕ
  pub rest : Text
  pub groups : List (ℕ × Text)

abbrev word_at : Option ℕ → Bool
word_at none = false
word_at (some c) = is_word c

abbrev head_of : Text → Option ℕ
head_of [] = none
head_of (c ∷ s) = some c

abbrev differ : Bool → Bool → Bool
differ true b = not b
differ false b = b

abbrev step_over : (ℕ → Bool) → Point → Text → List Point
step_over p pt [] = []
step_over p pt (c ∷ s) = if p c then record pt { prev = some c; rest = s } ∷ [] else []

-- The greedy repetition: the longest run first.
run_star : (ℕ → Bool) → List (ℕ × Text) → Option ℕ → Text → List Point
run_star p gs prev [] = record { prev = prev; rest = []; groups = gs } ∷ []
run_star p gs prev (c ∷ s) =
    let here = record { prev = prev; rest = c ∷ s; groups = gs } ∷ [] in
    let more = run_star p gs (some c) s in if p c then more ++ here else here

abbrev at_end : Text → Bool
at_end [] = true
at_end (c ∷ []) = c == 10
at_end (c ∷ d ∷ s) = false

abbrev close_group : ℕ → Text → List Point → List Point
close_group n before [] = []
close_group n before (pt ∷ pts) =
    record pt { groups = (n, take (length before - length pt.rest) before) ∷ pt.groups }
    ∷ close_group n before pts

unfoldable pub run : Re → Point → List Point
unfolding run_star lower_char is_word is_space flat_map
run eps pt = pt ∷ []
run (chr c) pt = step_over (λ d. lower_char c == lower_char d) pt pt.rest
run (cls p) pt = step_over p pt pt.rest
run (star p) pt = run_star p pt.groups pt.prev pt.rest
run (seq r s) pt = flat_map (run s) (run r pt)
run (alt r s) pt = run r pt ++ run s pt
run word_edge pt = if differ (word_at pt.prev) (word_at (head_of pt.rest)) then pt ∷ [] else []
run end pt = if at_end pt.rest then pt ∷ [] else []
run (group n r) pt = close_group n pt.rest (run r pt)

abbrev start_at : Text → Point
start_at s = record { prev = none; rest = s; groups = [] }

-- `pattern.match(s)`: the first way to match, if there is one.
unfoldable pub match : Re → Text → Option Point
unfolding run
match r s = elim (run r (start_at s)) [ [] ↦ none | pt ∷ _ ↦ some pt ]

unfoldable pub matches : Re → Text → Bool
unfolding run
matches r s = not (is_nil (run r (start_at s)))

-- `match.group(n)`: `none` where the group took no part.
unfoldable pub group_of : ℕ → List (ℕ × Text) → Option Text
group_of n [] = none
group_of n ((m, s) ∷ gs) = if m == n then some s else group_of n gs

abbrev pub seqs : List Re → Re
seqs [] = eps
seqs (r ∷ []) = r
seqs (r ∷ s ∷ rs) = seq r (seqs (s ∷ rs))

abbrev pub alts : Re → List Re → Re
alts r [] = r
alts r (s ∷ rs) = alt r (alts s rs)

abbrev pub opt : Re → Re
opt r = alt r eps

abbrev literal : Text → Re
literal [] = eps
literal (c ∷ []) = chr c
literal (c ∷ d ∷ s) = seq (chr c) (literal (d ∷ s))

-- A literal run of characters, matched without regard to case.
abbrev pub lit : String → Re
lit s = literal (codes s)

abbrev pub words : String → List String → Re
words s [] = lit s
words s (t ∷ ts) = alt (lit s) (words t ts)

-- `\s*`, `\s+`
abbrev pub ws0 : Re
ws0 = star is_space

abbrev pub ws1 : Re
ws1 = seq (cls is_space) (star is_space)
