-- ===== src/Agents/Purchase/Detect.antt =====
-- The patterns of purchase.py and the three detectors; `_extract_product_and_quantity`.
mod Tests
use ecommerce_sales_agent.Prelude.{
  ℕ, zero, suc, Bool, true, false, ◌||◌, not, Option, none, some, List, [], ◌∷◌, ◌++◌, any,
  if◌then◌else◌, is_nil, ◌==◌,
}
use ecommerce_sales_agent.Prelude.Int.{ℤ, pos, negsuc}
use ecommerce_sales_agent.Text.{
  Text, codes, strip, rstrip_of, one_of, is_space, is_decimal, is_letter, int_of, lower, text_eq,
}
use ecommerce_sales_agent.Regex.{
  Re, eps, chr, cls, star, seq, alt, word_edge, end, group, Point, match, matches, group_of, seqs,
  alts, opt, lit, words, ws0, ws1,
}

abbrev please : Re
please = opt (seq (lit "please") ws1)

abbrev i_form : Re
i_form = seq (lit "i") (opt (words "'d" (" would" ∷ "'ll" ∷ " will" ∷ [])))

abbrev purchase_patterns : List Re
purchase_patterns =
    seqs (
      ws0
      ∷ please
      ∷ i_form
      ∷ ws0
      ∷ opt (
          words "want to" (
            "wanna" ∷ "'d like to" ∷ "would like to" ∷ "like to" ∷ "'ll" ∷ "will" ∷ "'m going to"
            ∷ "am going to" ∷ []))
      ∷ ws0
      ∷ please
      ∷ words "buy" ("purchase" ∷ "take" ∷ "order" ∷ [])
      ∷ word_edge
      ∷ [])
    ∷ seqs (ws0 ∷ lit "i" ∷ words "'m" (" am" ∷ []) ∷ ws1 ∷ lit "buying" ∷ word_edge ∷ [])
    ∷ seqs (
        ws0
        ∷ please
        ∷ words "buy" ("purchase" ∷ "order" ∷ [])
        ∷ ws1
        ∷ cls (λ c. not (is_space c))
        ∷ [])
    ∷ seqs (
        ws0
        ∷ words "can" ("could" ∷ "will" ∷ "would" ∷ [])
        ∷ ws1
        ∷ lit "you"
        ∷ ws1
        ∷ please
        ∷ words "buy" ("purchase" ∷ "order" ∷ [])
        ∷ word_edge
        ∷ [])
    ∷ seqs (
        ws0
        ∷ please
        ∷ lit "let"
        ∷ ws1
        ∷ lit "me"
        ∷ ws1
        ∷ words "buy" ("purchase" ∷ "get" ∷ "order" ∷ [])
        ∷ word_edge
        ∷ [])
    ∷ seqs (
        ws0
        ∷ please
        ∷ i_form
        ∷ ws0
        ∷ opt (
            words "want to"
              ("wanna" ∷ "'d like to" ∷ "would like to" ∷ "like to" ∷ "'ll" ∷ "will" ∷ []))
        ∷ ws0
        ∷ lit "place"
        ∷ ws1
        ∷ words "an" ("my" ∷ "the" ∷ [])
        ∷ ws1
        ∷ lit "order"
        ∷ word_edge
        ∷ [])
    ∷ seqs (
        ws0
        ∷ please
        ∷ lit "place"
        ∷ ws1
        ∷ opt (words "an" ("my" ∷ "the" ∷ []))
        ∷ ws0
        ∷ lit "order"
        ∷ word_edge
        ∷ [])
    ∷ []

abbrev comma_ws : Re
comma_ws = seq (opt (lit ",")) ws0

abbrev the_my_it : Re
the_my_it = words "the" ("my" ∷ "it" ∷ [])

abbrev confirm_patterns : List Re
confirm_patterns =
    seqs (
      ws0
      ∷ opt (
          alts (seq (lit "yes") comma_ws) (
            seq (lit "yep") comma_ws
            ∷ seq (lit "yeah") comma_ws
            ∷ seq (lit "sure") comma_ws
            ∷ seqs (lit "ok" ∷ opt (lit "ay") ∷ comma_ws ∷ [])
            ∷ seq (lit "confirmed") comma_ws
            ∷ seq (lit "please") ws1
            ∷ []))
      ∷ alts
          (seqs (
            lit "confirm"
            ∷ opt (seq ws1 the_my_it)
            ∷ ws1
            ∷ opt (words "order" ("purchase" ∷ []))
            ∷ []))
          (seqs (ws0 ∷ lit "confirm" ∷ ws1 ∷ lit "it" ∷ [])
            ∷ seqs (lit "place" ∷ ws1 ∷ opt the_my_it ∷ ws0 ∷ lit "order" ∷ [])
            ∷ seqs (lit "go" ∷ ws1 ∷ lit "ahead" ∷ [])
            ∷ lit "proceed"
            ∷ seqs (lit "i" ∷ ws1 ∷ lit "confirm" ∷ [])
            ∷ seqs (lit "i" ∷ ws1 ∷ opt (seq (lit "do") ws1) ∷ lit "want" ∷ ws1 ∷ lit "it" ∷ [])
            ∷ seqs (lit "buy" ∷ ws1 ∷ lit "it" ∷ [])
            ∷ [])
      ∷ [])
    ∷ []

abbrev dont : Re
dont = seqs (lit "don" ∷ opt (lit "'") ∷ lit "t" ∷ [])

abbrev order_verb : Re
order_verb = words "place" ("confirm" ∷ "buy" ∷ "purchase" ∷ [])

abbrev order_noun : Re
order_noun = opt (words "order" ("purchase" ∷ "it" ∷ []))

-- `[.!?\s]`
abbrev closing : ℕ → Bool
closing c = one_of (codes ".!?") c || is_space c

abbrev decline_patterns : List Re
decline_patterns =
    seqs (
      ws0
      ∷ opt (
          alts (seq (lit "no") comma_ws) (
            seq (lit "nope") comma_ws
            ∷ seq (lit "nah") comma_ws
            ∷ seq (lit "cancel") comma_ws
            ∷ seq (lit "please") ws1
            ∷ []))
      ∷ alts (seqs (lit "cancel" ∷ opt (seq ws1 the_my_it) ∷ ws0 ∷ order_noun ∷ [])) (
          seqs (
            dont
            ∷ ws1
            ∷ order_verb
            ∷ ws1
            ∷ opt (alts (seq (lit "the") ws1) (seq (lit "my") ws1 ∷ seq (lit "it") word_edge ∷ []))
            ∷ ws0
            ∷ order_noun
            ∷ [])
          ∷ seqs (lit "not" ∷ ws1 ∷ lit "now" ∷ [])
          ∷ seqs (lit "do" ∷ ws1 ∷ lit "not" ∷ ws1 ∷ order_verb ∷ [])
          ∷ seqs (
              lit "i"
              ∷ ws1
              ∷ opt (seq (lit "do") ws1)
              ∷ opt (seq (lit "not") ws1)
              ∷ alt (lit "want") (seqs (dont ∷ ws1 ∷ lit "want" ∷ []))
              ∷ ws1
              ∷ lit "it"
              ∷ ws0
              ∷ opt (alt (lit "anymore") (seqs (lit "any" ∷ ws1 ∷ lit "more" ∷ [])))
              ∷ [])
          ∷ seqs (lit "stop" ∷ ws1 ∷ lit "the" ∷ ws1 ∷ lit "order" ∷ [])
          ∷ [])
      ∷ [])
    ∷ seqs (ws0 ∷ words "no" ("nope" ∷ "nah" ∷ []) ∷ star closing ∷ end ∷ [])
    ∷ []

abbrev bare_confirm_pattern : Re
bare_confirm_pattern = seqs (
    ws0
    ∷ alts (lit "yes") (
        lit "yep"
        ∷ lit "yeah"
        ∷ lit "sure"
        ∷ seq (lit "ok") (opt (lit "ay"))
        ∷ seqs (lit "please" ∷ ws1 ∷ lit "do" ∷ [])
        ∷ [])
    ∷ star closing
    ∷ end
    ∷ [])

abbrev any_matches : List Re → Text → Bool
any_matches patterns s = any (λ pattern'. matches pattern' s) patterns

unfoldable pub detect_purchase_intent : Text → Bool
unfolding matches strip one_of is_space
detect_purchase_intent message = any_matches purchase_patterns (strip message)

unfoldable pub detect_confirmation : Text → Bool
unfolding matches strip one_of is_space
detect_confirmation message =
    let stripped = strip message in
    matches bare_confirm_pattern stripped || any_matches confirm_patterns stripped

unfoldable pub detect_decline : Text → Bool
unfolding matches strip one_of is_space
detect_decline message = any_matches decline_patterns (strip message)

abbrev digits_group : Re
digits_group = group 1 (seq (cls is_decimal) (star is_decimal))

-- `.`: anything but a line feed
abbrev dot : ℕ → Bool
dot c = not (c == 10)

abbrev quantity_before_product : Re
quantity_before_product = seqs (
    ws0
    ∷ please
    ∷ words "buy" ("purchase" ∷ "order" ∷ [])
    ∷ ws1
    ∷ alt digits_group (group 2 (seq (cls is_letter) (star is_letter)))
    ∷ ws1
    ∷ group 3 (seq (cls dot) (star dot))
    ∷ end
    ∷ [])

abbrev order_framing : Re
order_framing = seqs (
    ws0
    ∷ please
    ∷ opt (
        alts
          (seqs (
            lit "i"
            ∷ opt (
                words "'d"
                  (" would" ∷ "'ll" ∷ " will" ∷ " want to" ∷ "'d like to" ∷ " would like to" ∷ []))
            ∷ ws1
            ∷ opt (seq (lit "like to") ws1)
            ∷ []))
          (seq (lit "can you") ws1 ∷ seq (lit "could you") ws1 ∷ []))
    ∷ please
    ∷ alts
        (seqs (
          lit "place"
          ∷ ws1
          ∷ words "an" ("my" ∷ "the" ∷ [])
          ∷ ws1
          ∷ lit "order"
          ∷ ws1
          ∷ lit "for"
          ∷ ws1
          ∷ []))
        (seqs (lit "place" ∷ ws1 ∷ lit "an" ∷ ws1 ∷ lit "order" ∷ ws1 ∷ lit "for" ∷ ws1 ∷ [])
          ∷ lit "buy"
          ∷ lit "purchase"
          ∷ [])
    ∷ ws1
    ∷ [])

abbrev article : Re
article = seq (words "a" ("an" ∷ "the" ∷ "some" ∷ [])) ws1

-- `^([+-]?\d+)\s+(.+)$`, with the sign and the digits in groups of their own
abbrev leading_number : Re
leading_number = seqs (
    opt (group 1 (words "+" ("-" ∷ [])))
    ∷ group 2 (seq (cls is_decimal) (star is_decimal))
    ∷ ws1
    ∷ group 3 (seq (cls dot) (star dot))
    ∷ end
    ∷ [])

-- `re.sub` by an anchored pattern and a space
abbrev sub_start : Re → Text → Text
sub_start r s = elim (match r s) [ none ↦ s | some pt ↦ 32 ∷ pt.rest ]

abbrev number_words : List (Text × ℕ)
number_words =
    (codes "one", 1)
    ∷ (codes "two", 2)
    ∷ (codes "three", 3)
    ∷ (codes "four", 4)
    ∷ (codes "five", 5)
    ∷ (codes "six", 6)
    ∷ (codes "seven", 7)
    ∷ (codes "eight", 8)
    ∷ (codes "nine", 9)
    ∷ (codes "ten", 10)
    ∷ []

abbrev number_word : Text → List (Text × ℕ) → Option ℕ
number_word w [] = none
number_word w ((v, n) ∷ table) = if text_eq v w then some n else number_word w table

abbrev or_empty : Option Text → Text
or_empty none = []
or_empty (some s) = s

abbrev signed : Option Text → ℕ → ℤ
signed none n = pos n
signed (some s) zero = pos zero
signed (some s) (suc n) = if text_eq s (codes "-") then negsuc n else pos (suc n)

abbrev as_quantity : Option ℕ → Option ℤ
as_quantity none = none
as_quantity (some n) = some (pos n)

abbrev none_if_empty : Text → Option Text
none_if_empty [] = none
none_if_empty (c ∷ s) = some (c ∷ s)

-- No leading quantity: the framing and an article are taken off, then a signed number.
abbrev unframed : Text → Option Text × Option ℤ
unframed stripped =
    let term = strip (sub_start article (sub_start order_framing stripped)) in
    elim (match leading_number term) [
      | none ↦ (none_if_empty term, none)
      | some pt ↦ (
        some (strip (or_empty (group_of 3 pt.groups))),
        (elim (int_of (or_empty (group_of 2 pt.groups))) [
          | none ↦ none
          | some n ↦ some (signed (group_of 1 pt.groups) n)
        ]),
      )
    ]

abbrev framed : Option Text → Text → Text → Option Text × Option ℤ
framed (some digits) word product = (some (strip product), as_quantity (int_of digits))
framed none word product = elim (number_word (lower word) number_words) [
  | some n ↦ (some (strip product), some (pos n))
  | none ↦ (some (strip (word ++ (32 ∷ product))), none)
]

unfoldable pub extract_product_and_quantity : Text → Option Text × Option ℤ
unfolding match group_of strip rstrip_of one_of int_of lower is_letter
extract_product_and_quantity message =
    let stripped = rstrip_of (one_of (codes ".!?")) (strip message) in
    elim (match quantity_before_product stripped) [
      | none ↦ unframed stripped
      | some pt ↦
          framed (group_of 1 pt.groups) (or_empty (group_of 2 pt.groups))
            (or_empty (group_of 3 pt.groups))
    ]
