-- ===== src/Xml/Parse.antt =====
-- src/xml/xmlparse.c: `XMLParse`. The position in the string is the text from there on; an error's
-- number is the length of the text before it.
pub mod Texts
pub mod Laws
pub mod Faults
use gogoc_android.Prelude.{
  ℕ, zero, suc, ◌+◌, ◌-◌, Bool, true, false, List, [], ◌∷◌, ◌++◌, Option, none, some, ltb, ◌==◌,
  ◌&&◌, if◌then◌else◌, length,
}
use gogoc_android.Cstring.{Text}
use gogoc_android.Cstring.Numbers.{ℤ, pos, negsuc}
use gogoc_android.Xml.{
  Attribute, Node, is_alpha, is_name_byte, is_value_byte, span, skip_blanks, find_node, set_node,
  set_attribute,
}

-- What a call comes to: its result; a tag too long for `endToken`; a read behind the end of the
-- string; or the fuel is used up.
pub data Outcome : Type 0 where
  returned : ℤ → Outcome
  token_overflow overrun unfinished : Outcome

-- what stands behind a tag: an error; `>` or `/>`, with `simple`; or a space
pub data TagEnd : Type 0 where
  bad_tag : Text → TagEnd
  tag_closed : Bool → Text → TagEnd
  tag_space : Text → TagEnd

pub tag_slash : Text → TagEnd
tag_slash [] = bad_tag []
tag_slash (c ∷ s) = if c == b'>' then tag_closed true s else bad_tag (c ∷ s)

pub tag_end : Text → TagEnd
unfolding tag_slash
tag_end [] = bad_tag []
tag_end (c ∷ s) =
    if c == b'/'
    then tag_slash s
    else if c == b' '
    then tag_space s
    else if c == b'>'
    then tag_closed false s
    else bad_tag (c ∷ s)

-- one attribute: its name, its value and the text behind it, or the text at the error
pub data AttributeRead : Type 0 where
  attribute_error : Text → AttributeRead
  attribute_read : Text → Text → Text → AttributeRead

pub attribute_close : Text → Text × Text → AttributeRead
attribute_close name (value, []) = attribute_error []
attribute_close name (value, c ∷ s) =
    if c == b'"' then attribute_read name value s else attribute_error (c ∷ s)

pub attribute_quote : Text → Text → AttributeRead
unfolding attribute_close span
attribute_quote name [] = attribute_error []
attribute_quote name (c ∷ s) =
    if c == b'"' then attribute_close name (span is_value_byte s) else attribute_error (c ∷ s)

pub attribute_equals : Text × Text → AttributeRead
unfolding attribute_quote
attribute_equals (name, []) = attribute_error []
attribute_equals (name, c ∷ s) =
    if c == b'=' then attribute_quote name s else attribute_error (c ∷ s)

-- the end of the attributes: `>` or `/>`, or an error
pub data AttributesEnd : Type 0 where
  attributes_error : Text → AttributesEnd
  attributes_closed : Bool → Text → AttributesEnd
  attributes_unfinished : AttributesEnd

abbrev pub close_with : Bool → Text → AttributesEnd
close_with simple [] = attributes_error []
close_with simple (c ∷ s) =
    if c == b'>' then attributes_closed simple s else attributes_error (c ∷ s)

abbrev pub close_attributes : Text → AttributesEnd
close_attributes [] = attributes_error []
close_attributes (c ∷ s) = if c == b'/' then close_with true s else close_with false (c ∷ s)

-- after an attribute: the values are stored, whatever comes later
abbrev pub after_attribute :
    AttributeRead
    → List Attribute
    → (Text → List Attribute → AttributesEnd × List Attribute)
    → AttributesEnd × List Attribute
after_attribute (attribute_error s) attributes next = (attributes_error s, attributes)
after_attribute (attribute_read name value s) attributes next =
    next (skip_blanks s) (set_attribute name value attributes)

-- `while (isalpha(string[pos]))`, at a text without blanks before it
pub read_attributes : ℕ → Text → List Attribute → AttributesEnd × List Attribute
read_attributes zero s attributes = (attributes_unfinished, attributes)
read_attributes (suc fuel) [] attributes = (close_attributes [], attributes)
read_attributes (suc fuel) (c ∷ s) attributes =
    let one =
      after_attribute (attribute_equals (span is_name_byte (c ∷ s))) attributes
        (read_attributes fuel) in
    if is_alpha c then one else (close_attributes (c ∷ s), attributes)

-- `strstr` for the end tag: what is before it, and what is behind it
unfoldable pub drop_prefix : Text → Text → Option Text
drop_prefix [] s = some s
drop_prefix (t ∷ token) [] = none
drop_prefix (t ∷ token) (c ∷ s) = let rest = drop_prefix token s in if t == c then rest else none

abbrev pub found_later : ℕ → Option (Text × Text) → Option (Text × Text)
found_later c none = none
found_later c (some (content, rest)) = some (c ∷ content, rest)

abbrev pub found_here : Option Text → Option (Text × Text) → Option (Text × Text)
found_here none later = later
found_here (some rest) later = some ([], rest)

pub find_end : Text → Text → Option (Text × Text)
unfolding drop_prefix
find_end token [] = found_here (drop_prefix token []) none
find_end token (c ∷ s) = found_here (drop_prefix token (c ∷ s)) (found_later c (find_end token s))

unfoldable pub end_token : Text → Text
end_token tag = b'<' ∷ b'/' ∷ (tag ++ (b'>' ∷ []))

abbrev pub end_token_size : ℕ
end_token_size = 100

-- `if (res > 0) res += pos;`
abbrev pub add_position : ℕ → ℤ → ℤ
add_position at (pos n) = pos (n + at)
add_position at (negsuc n) = negsuc n

-- a call: its outcome, and the table and the state that it leaves
abbrev pub Call : Type 0 → Type 0
Call S = Outcome × List (Node S) × S

abbrev pub after_gt : Text → Text
after_gt [] = []
after_gt (c ∷ s) = s

module _ {S : Type 0} where
  -- after a processing function: a result other than 0 is returned
  abbrev pub after_process : ℕ → List (Node S) → ℤ × S → (S → Call S) → Call S
  after_process at nodes (pos zero, s) next = next s
  after_process at nodes (pos (suc n), s) next = (returned (pos (suc n + at)), nodes, s)
  after_process at nodes (negsuc n, s) next = (returned (negsuc n), nodes, s)

  -- `if (n && n->p) res = (*n->p)(n, content);`
  pub process_node : ℕ → Option (Node S) → Text → List (Node S) → S → (S → Call S) → Call S
  process_node at none content nodes s next = next s
  process_node at (some n) content nodes s next = elim n.process [
    | none ↦ next s
    | some p ↦ after_process at nodes (p n.attributes content s) next
  ]

  abbrev pub close_element :
      ℕ
      → Option (Node S)
      → Option (Text × Text)
      → ℕ
      → List (Node S)
      → S
      → (Text → S → Call S)
      → Call S
  close_element at n none error nodes s next = (returned (pos error), nodes, s)
  close_element at n (some (content, rest)) error nodes s next =
      process_node at n content nodes s (next rest)

  -- the content of a node whose start has been read, up to `rest`
  pub element :
      ℕ → Text → Option (Node S) → Bool → Text → List (Node S) → S → (Text → S → Call S) → Call S
  unfolding process_node find_end end_token
  element total tag n true rest nodes s next =
      process_node (total - length rest) n rest nodes s (next rest)
  element total tag n false rest nodes s next =
      if ltb (length (end_token tag)) end_token_size
      then close_element (total - length rest) n (find_end (end_token tag) rest)
          (total - length rest) nodes s next
      else (token_overflow, nodes, s)

  -- a tag that is not in the table: up to the next `>`, unless the text ends there
  pub unknown_element : ℕ → Text → Bool → Text → List (Node S) → S → (Text → S → Call S) → Call S
  unfolding element
  unknown_element total tag true rest nodes s next = element total tag none true rest nodes s next
  unknown_element total tag false [] nodes s next = (returned (pos total), nodes, s)
  unknown_element total tag false (c ∷ rest) nodes s next =
      element total tag none false (c ∷ rest) nodes s next

  -- a known node with its attributes, which are kept in the table
  abbrev pub after_attributes :
      ℕ
      → Text
      → Node S
      → AttributesEnd × List Attribute
      → List (Node S)
      → S
      → (List (Node S) → Text → S → Call S)
      → Call S
  after_attributes total tag n (attributes_error rest, attributes) nodes s next =
      (returned (pos (total - length rest)), set_node tag attributes nodes, s)
  after_attributes total tag n (attributes_unfinished, attributes) nodes s next =
      (unfinished, nodes, s)
  after_attributes total tag n (attributes_closed simple rest, attributes) nodes s next =
      element total tag (some (record n { attributes = attributes })) simple rest
        (set_node tag attributes nodes) s (next (set_node tag attributes nodes))

  -- behind a tag and a space. At the end of the string the code takes the 0 there for the one that
  -- it writes in place of a `>`, and steps over it.
  pub spaced_element :
      ℕ
      → Text
      → Option (Node S)
      → Text
      → List (Node S)
      → S
      → (List (Node S) → Text → S → Call S)
      → Call S
  unfolding span read_attributes unknown_element
  spaced_element total tag n [] nodes s next = (overrun, nodes, s)
  spaced_element total tag none (c ∷ rest) nodes s next =
      unknown_element total tag false
        (after_gt (span (λ d. if d == b'>' then false else true) (c ∷ rest)).1) nodes s (next nodes)
  spaced_element total tag (some n) (c ∷ rest) nodes s next =
      after_attributes total tag n
        (read_attributes (suc (length rest) + 1) (skip_blanks (c ∷ rest)) n.attributes) nodes s next

  pub closed_element :
      ℕ → Text → Option (Node S) → Bool → Text → List (Node S) → S → (Text → S → Call S) → Call S
  unfolding unknown_element element
  closed_element total tag none simple rest nodes s next =
      unknown_element total tag simple rest nodes s next
  closed_element total tag (some n) simple rest nodes s next =
      element total tag (some n) simple rest nodes s next

  pub after_tag :
      ℕ → Text → TagEnd → List (Node S) → S → (List (Node S) → Text → S → Call S) → Call S
  unfolding find_node spaced_element closed_element
  after_tag total tag (bad_tag rest) nodes s next = (returned (pos (total - length rest)), nodes, s)
  after_tag total tag (tag_closed simple rest) nodes s next =
      closed_element total tag (find_node tag nodes) simple rest nodes s (next nodes)
  after_tag total tag (tag_space rest) nodes s next =
      spaced_element total tag (find_node tag nodes) rest nodes s next

  -- behind a `<`
  pub start_tag : ℕ → Text → List (Node S) → S → (List (Node S) → Text → S → Call S) → Call S
  unfolding after_tag tag_end span
  start_tag total [] nodes s next = (returned (pos total), nodes, s)
  start_tag total (c ∷ rest) nodes s next =
      let (tag, behind) = span is_name_byte (c ∷ rest) in
      if is_alpha c
      then after_tag total tag (tag_end behind) nodes s next
      else (returned (pos (total - length (c ∷ rest))), nodes, s)

  -- at a text without blanks before it
  pub start_element : ℕ → Text → List (Node S) → S → (List (Node S) → Text → S → Call S) → Call S
  unfolding start_tag
  start_element total [] nodes s next = (returned (pos 0), nodes, s)
  start_element total (c ∷ rest) nodes s next =
      if c == b'<'
      then start_tag total rest nodes s next
      else (returned (pos (total - length (c ∷ rest))), nodes, s)

  -- the loop of `XMLParse`
  pub parse_loop : ℕ → ℕ → Text → List (Node S) → S → Call S
  unfolding start_element skip_blanks
  parse_loop zero total text nodes s = (unfinished, nodes, s)
  parse_loop (suc fuel) total text nodes s =
      start_element total (skip_blanks text) nodes s
        (λ nodes' rest s'. parse_loop fuel total rest nodes' s')

  -- `XMLParse`: every round takes at least the `<` of an element.
  pub xml_parse : Bool → Text → List (Node S) → S → Call S
  unfolding parse_loop
  xml_parse malloc text nodes s =
      if malloc
      then parse_loop (suc (length text)) (length text) text nodes s
      else (returned (negsuc 0), nodes, s)
