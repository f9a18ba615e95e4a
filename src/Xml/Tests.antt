-- ===== src/Xml/Tests.antt =====
-- The parser at concrete documents.
use gogoc_android.Prelude.{ℕ, zero, suc, ◌≡◌, refl, true, List, [], ◌∷◌, ◌++◌, none, some, arith}
use gogoc_android.Cstring.{Text, text_eq}
use gogoc_android.Cstring.Numbers.{ℤ, pos}
use gogoc_android.Xml.{Attribute, Node, set_attribute, set_node, find_node}
use gogoc_android.Xml.Parse.{returned, token_overflow, overrun, xml_parse, end_token, drop_prefix}
use gogoc_android.Xml.Parse.Texts.{set_attributes}
use gogoc_android.Xml.Parse.Laws.{Element, IsElement, print_elements, run_elements, xml_parse-print}
use gogoc_android.Xml.Parse.Faults.{bare_text_accepted, long_tag_overflows, truncated_tag_overruns}

abbrev router : Text
router = b'r' ∷ b'o' ∷ b'u' ∷ b't' ∷ b'e' ∷ b'r' ∷ []

abbrev as_tag : Text
as_tag = b'a' ∷ b's' ∷ []

abbrev kind : Text
kind = b't' ∷ b'y' ∷ b'p' ∷ b'e' ∷ []

abbrev ipv4 : Text
ipv4 = b'i' ∷ b'p' ∷ b'v' ∷ b'4' ∷ []

-- the state is the list of the contents, the last one first
abbrev log : List Attribute → Text → List Text → ℤ × List Text
log attributes content seen = (pos 0, content ∷ seen)

abbrev table : List (Node (List Text))
table =
    record { tag = as_tag; process = some log; attributes = [] }
    ∷ record {
      tag = router;
      process = some log;
      attributes = record { name = kind; value = none } ∷ [];
    }
    ∷ []

abbrev after : List (Node (List Text))
after =
    record { tag = as_tag; process = some log; attributes = [] }
    ∷ record {
      tag = router;
      process = some log;
      attributes = record { name = kind; value = some ipv4 } ∷ [];
    }
    ∷ []

-- `<as>1</as>`
abbrev inner : Text
inner = b'<' ∷ b'a' ∷ b's' ∷ b'>' ∷ b'1' ∷ b'<' ∷ b'/' ∷ b'a' ∷ b's' ∷ b'>' ∷ []

-- `<router type="ipv4"><as>1</as></router>`, and `<as></as>`
abbrev document : List Element
document =
    record { tag = router; attributes = (kind, ipv4) ∷ []; content = inner }
    ∷ record { tag = as_tag; attributes = []; content = [] }
    ∷ []

router-IsElement :
    IsElement (record { tag = router; attributes = (kind, ipv4) ∷ []; content = inner })
unfolding end_token drop_prefix
router-IsElement = record {
  name = ground arith;
  short = omega arith;
  attributes_valid = ground arith;
  free = ground arith;
}

as_tag-IsElement : IsElement (record { tag = as_tag; attributes = []; content = [] })
as_tag-IsElement = record {
  name = ground arith;
  short = omega arith;
  attributes_valid = ground arith;
  free = ground arith;
}

xml_parse-print_example :
    xml_parse true (print_elements document) table [] ≡ (returned (pos 0), after, [] ∷ inner ∷ [])
unfolding run_elements set_attributes set_attribute set_node find_node text_eq
xml_parse-print_example =
    xml_parse-print document table after [] ([] ∷ inner ∷ [])
      (router-IsElement, (as_tag-IsElement, tt)) refl

bare_text_accepted_example :
    xml_parse true (b'2' ∷ b'0' ∷ b'0' ∷ []) table [] ≡ (returned (pos 0), table, [])
bare_text_accepted_example = bare_text_accepted table [] b'2' (b'0' ∷ b'0' ∷ []) refl refl

abbrev letters : ℕ → Text
letters zero = []
letters (suc n) = b'a' ∷ letters n

long_tag_overflows_example :
    xml_parse true (b'<' ∷ (letters 97 ++ (b'>' ∷ b' ' ∷ []))) table []
    ≡ (token_overflow, table, [])
long_tag_overflows_example =
    long_tag_overflows table [] (letters 97) b' ' [] (ground arith) (omega arith)

truncated_tag_overruns_example :
    xml_parse true (b'<' ∷ (router ++ (b' ' ∷ []))) table [] ≡ (overrun, table, [])
truncated_tag_overruns_example = truncated_tag_overruns table [] router (ground arith)
