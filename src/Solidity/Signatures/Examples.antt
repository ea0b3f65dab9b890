-- ===== src/Solidity/Signatures/Examples.antt =====
-- Tests of the signature extractor.
use vergil.Prelude.{false, ◌≤◌, ◌≡◌, refl, true, none, some, [], ◌∷◌, length, All}
use vergil.Prelude.Chars.{contains, Text, codes}
use vergil.Prelude.{false, leb→le, length, ◌≤◌, All}
use vergil.Prelude.Chars
use vergil.Solidity.Signatures.Comments.{strip_comments, project_index}
use vergil.Solidity.Signatures.Comments.Laws.{drop, all-IsAscii, project_index-IsBehind}
use vergil.Solidity.Signatures.Comments.Clean.{strip_comments-IsBare}
use vergil.Solidity.Signatures.Extract.Declared.{IsDeclared}
use vergil.Solidity.Signatures.Extract.Laws.{IsCallable, extract-AllCallable}
use vergil.Solidity.Signatures
use vergil.Solidity.Signatures.Comments
use vergil.Solidity.Signatures.Extract
use vergil.Solidity.Signatures.Body
use vergil.Solidity.Signatures.Constructor
use vergil.Solidity.Signatures.Extract.{extract_loop, FunctionSignature, extract}
use vergil.Solidity.Signatures.Body.{body_for}
use vergil.Solidity.Signatures.Constructor.{
  CtorParam, extract_constructor, synthesize_ctor_args, synthesize_ctor_arg,
}

abbrev token : Text
token =
    codes
      "contract T { // function fake() public {}\n function transfer (address to, f(uint) g) external view returns (bool) { a; }\nfunction hid() internal { } }"

transfer_only :
    extract token
    ≡ record {
      name = codes "transfer";
      args = codes "(address to, f(uint) g)";
      visibility = codes "external";
      returns = codes "returns (bool)";
      is_view_pure = true;
    }
      ∷ []
unfolding extract extract_loop Extract.scan_function Extract.is_skipped Extract.skip_whitespace
    Extract.find_mods Extract.extract_returns Comments.strip_comments Comments.strip_from
    Comments.is_shown Comments.push Comments.next Comments.peek Chars.split_first Chars.strip_prefix
    Chars.is_whitespace Chars.starts_with Chars.eqb Chars.contains Signatures.match_paren
    Signatures.drop_one Chars.ends_with Chars.trim_start Signatures.span_ident Signatures.is_ident
transfer_only = refl

body_of_hid : body_for (codes "hid") token ≡ some (codes " ")
unfolding body_for Body.locate_function Body.locate_from Body.find_body_open Body.match_brace
    Comments.project_index Comments.project_from Comments.strip_comments Comments.strip_from
    Comments.is_shown Comments.push Comments.next Comments.peek Chars.split_first Chars.strip_prefix
    Chars.eqb Signatures.span_ident Signatures.is_ident Signatures.drop_one
body_of_hid = refl

-- A brace in a comment of the signature is taken for the body's.
body_of_commented : body_for (codes "f") (codes "function f() /* { */ external { a; }") ≡ none
unfolding body_for Body.locate_function Body.locate_from Body.find_body_open Body.match_brace
    Comments.project_index Comments.project_from Comments.strip_comments Comments.strip_from
    Comments.is_shown Comments.push Comments.next Comments.peek Chars.split_first Chars.strip_prefix
    Chars.eqb Signatures.span_ident Signatures.is_ident Signatures.drop_one
body_of_commented = refl

reads_constructor :
    extract_constructor (codes "constructor(address owner, uint8 memory d) X(1) {}")
    ≡ record { ty = codes "address"; name = codes "owner" }
      ∷ record { ty = codes "uint8"; name = codes "d" }
      ∷ []
unfolding extract_constructor Constructor.split_commas Constructor.split_whitespace
    Comments.strip_comments Comments.strip_from Comments.is_shown Comments.push Comments.next
    Comments.peek Chars.split_first Chars.strip_prefix Chars.is_whitespace Signatures.match_paren
    Signatures.drop_one
reads_constructor = refl

makes_arguments :
    synthesize_ctor_args
      (extract_constructor (codes "constructor(address owner, uint8 memory d) X(1) {}"))
    ≡ some (codes "address(this), 1")
unfolding extract_constructor Constructor.split_commas Constructor.split_whitespace
    Comments.strip_comments Comments.strip_from Comments.is_shown Comments.push Comments.next
    Comments.peek Chars.split_first Chars.strip_prefix Chars.is_whitespace Signatures.match_paren
    Signatures.drop_one synthesize_ctor_args synthesize_ctor_arg Constructor.bits
    vergil.Prelude.Decimal.parse_u32 Chars.ends_with Chars.starts_with Chars.eqb
makes_arguments = refl

abbrev commented : Text
commented = codes "a /* b */ c // d"

finds_ten : project_index commented 3 ≡ some 10
unfolding project_index Comments.project_from Comments.next Comments.is_shown Comments.peek
finds_ten = refl

short_token : length (strip_comments token) ≤ 400
unfolding strip_comments Comments.strip_from Comments.is_shown Comments.push Comments.next
    Comments.peek
short_token = leb→le (length (strip_comments token)) 400 refl

project_index-IsBehind_example :
    drop 3 (strip_comments commented) ≡ strip_comments (drop 10 commented)
project_index-IsBehind_example =
    project_index-IsBehind commented 3 10 (all-IsAscii commented refl) finds_ten

strip_comments-IsBare_example :
    (contains (codes "//") (strip_comments commented) ≡ false)
    × (contains (codes "/*") (strip_comments commented) ≡ false)
    × (strip_comments (strip_comments commented) ≡ strip_comments commented)
strip_comments-IsBare_example = strip_comments-IsBare commented (all-IsAscii commented refl)

extract-AllCallable_example :
    All IsCallable (extract token)
    × All (IsDeclared (strip_comments token)) (extract token)
    × (extract_loop 400 (strip_comments token) ≡ extract token)
extract-AllCallable_example = extract-AllCallable token 400 short_token
