-- ===== src/Solidity/Halmos/Lines.antt =====
-- What the parser of Halmos output reads from single lines (crates/vergil-solidity/src/halmos.rs).
use vergil.Prelude.{
  ℕ, zero, suc, Bool, false, not, ◌&&◌, ◌||◌, Option, none, some, List, [], ◌∷◌, ◌++◌, leb, ◌==◌,
  if◌then◌else◌, length, select, find,
}
use vergil.Prelude.Chars.{
  Text, codes, contains, starts_with, strip_prefix, split_first, lines, trim, trim_start,
}
use vergil.Prelude.Decimal.{parse_u32}

-- Plain output; at the bracket of a color code; inside one.
pub data Ansi : Type 0 where
  plain : Ansi
  bracket : Ansi
  inside : Ansi

is_alphabetic : ℕ → Bool
is_alphabetic c = leb b'A' c && leb c b'Z' || leb b'a' c && leb c b'z'

opens_bracket : Text → Bool
opens_bracket [] = false
opens_bracket (c ∷ s) = c == b'['

ansi_next : Ansi → ℕ → Text → Ansi
unfolding opens_bracket is_alphabetic
ansi_next plain c s = if (c == 27) && opens_bracket s then bracket else plain
ansi_next bracket c s = inside
ansi_next inside c s = if is_alphabetic c then plain else inside

is_plain : Ansi → ℕ → Bool
is_plain plain c = not (c == 27)
is_plain bracket c = false
is_plain inside c = false

strip_from : Ansi → Text → Text
unfolding ansi_next is_plain
strip_from a [] = []
strip_from a (c ∷ s) =
    let rest = strip_from (ansi_next a c s) s in if is_plain a c then c ∷ rest else rest

unfoldable pub strip_ansi : Text → Text
unfolding strip_from
strip_ansi input = strip_from plain input

unfoldable pub tagged : Text → Text
tagged tag = codes "[" ++ (tag ++ codes "]")

-- The first line with the tag.
unfoldable pub find_status_line : Text → Text → Option Text
find_status_line text tag = find (contains (tagged tag)) (lines text)

joined : List Text → Text
joined [] = []
joined (l ∷ []) = l
joined (l ∷ m ∷ ls) = l ++ (10 ∷ joined (m ∷ ls))

is_build_line : Text → Bool
is_build_line line =
    contains (codes "Error") line
    || contains (codes "error:") line
    || contains (codes "Compiler run failed") line
    || contains (codes "Build failed") line
    || starts_with (codes "|") (trim_start line)
    || starts_with (codes "--> ") (trim_start line)

unfoldable pub says_build_failed : Text → Bool
says_build_failed text =
    contains (codes "Build failed:") text || contains (codes "Compiler run failed:") text

or_whole : Text → Text → Text
or_whole text [] = text
or_whole text (c ∷ s) = c ∷ s

-- The message of a failed build; none when the build did not fail.
unfoldable pub parse_build_error : Text → Option Text
unfolding joined is_build_line or_whole
parse_build_error text =
    if says_build_failed text
    then some (or_whole text (joined (select is_build_line (lines text))))
    else none

-- The tags in the order in which they are looked for in a line.
status_tags : List Text
status_tags =
    codes "[PASS]" ∷ codes "[FAIL]" ∷ codes "[TIMEOUT]" ∷ codes "[UNKNOWN]" ∷ codes "[ERROR]" ∷ []

after_tag : List Text → Text → Option Text
after_tag [] line = none
after_tag (t ∷ ts) line = elim (split_first t line) [
  | some (_, after) ↦ some after
  | none ↦ after_tag ts line
]

-- The signature: up to the closing parenthesis, up to an opening one without it, or everything.
signature_of : Text → Text
signature_of trimmed = elim (split_first (codes "(") trimmed) [
  | none ↦ trimmed
  | some (before, rest) ↦ elim (split_first (codes ")") rest) [
    | some (args, _) ↦ before ++ (b'(' ∷ (args ++ (b')' ∷ [])))
    | none ↦ before
  ]
]

property_in : List Text → Option Text
unfolding status_tags after_tag signature_of
property_in [] = none
property_in (l ∷ ls) = elim (after_tag status_tags l) [
  | some after ↦ some (trim (signature_of (trim_start after)))
  | none ↦ property_in ls
]

unfoldable pub extract_property : Text → Option Text
unfolding property_in
extract_property text = property_in (lines text)

up_to_comma : Text → Text
up_to_comma rest = elim (split_first (codes ",") rest) [ some (before, _) ↦ before | none ↦ rest ]

unfoldable pub extract_paths : Text → Option ℕ
unfolding up_to_comma
extract_paths status_line = elim (split_first (codes "paths:") status_line) [
  | none ↦ none
  | some (_, rest) ↦ parse_u32 (trim (up_to_comma rest))
]

-- The text behind the last occurrence.
after_last : Text → Text → Option Text
after_last pat [] = none
after_last pat (c ∷ s) = elim (after_last pat s) [
  | some rest ↦ some rest
  | none ↦ strip_prefix pat (c ∷ s)
]

-- `trim_end_matches`
trim_end : ℕ → Text → Text
trim_end b [] = []
trim_end b (c ∷ s) = elim (trim_end b s) [
  | [] ↦ if c == b then [] else c ∷ []
  | d ∷ rest ↦ c ∷ d ∷ rest
]

last_match : (Text → Bool) → List Text → Option Text
last_match test [] = none
last_match test (l ∷ ls) = elim (last_match test ls) [
  | some m ↦ some m
  | none ↦ if test l then some l else none
]

-- `millis` reads a number of seconds and gives its milliseconds, rounded towards zero.
unfoldable pub extract_total_time_ms : (millis : Text → Option ℕ) → Text → Option ℕ
unfolding after_last trim_end last_match
extract_total_time_ms millis text =
    elim (last_match (contains (codes "Symbolic test result")) (lines text)) [
      | none ↦ none
      | some line ↦ elim (after_last (codes "time:") line) [
        | none ↦ none
        | some rest ↦ millis (trim_end b's' (trim rest))
      ]
    ]

-- `trim_start_matches`; the fuel is the length, and each round takes the prefix off.
trim_prefixes : (fuel : ℕ) → Text → Text → Text
trim_prefixes zero pat s = s
trim_prefixes (suc fuel) pat s = elim (strip_prefix pat s) [
  | none ↦ s
  | some rest ↦ trim_prefixes fuel pat rest
]

message_line : Text → Text → Option Text
unfolding trim_prefixes
message_line word text = elim (find (λ l. starts_with word (trim_start l)) (lines text)) [
  | none ↦ none
  | some line ↦ some (trim (trim_prefixes (length line) word line))
]

unfoldable pub extract_warning : Text → Option Text
unfolding message_line
extract_warning text = message_line (codes "WARNING") text

unfoldable pub extract_error_message : Text → Option Text
unfolding message_line
extract_error_message text = message_line (codes "ERROR") text
