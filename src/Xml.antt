-- ===== src/Xml.antt =====
-- src/xml/xmlparse.c and include/xmlparse.h: the table of nodes that a document is read with, and
-- the characters of names and values.
pub mod Parse
pub mod Request
pub mod Tunnel
mod Tests
use gogoc_android.Prelude.{
  ℕ, Bool, true, false, List, [], ◌∷◌, Option, none, some, leb, ◌==◌, ◌&&◌, ◌||◌, not,
  if◌then◌else◌,
}
use gogoc_android.Cstring.{Text, text_eq}
use gogoc_android.Cstring.Numbers.{ℤ}

-- `tAttribute`: `none` for the value NULL. A value is the text that the pointer leads to while the
-- parser runs; the string that it lies in is freed when the parser returns.
pub record Attribute : Type 0 where
  pub name : Text
  pub value : Option Text

-- `tNode`: `process` is the function `p`, on the node's attributes and the content, with the state
-- that the processing functions share.
pub record Node (S : Type 0) : Type 0 where
  pub tag : Text
  pub process : Option (List Attribute → Text → S → ℤ × S)
  pub attributes : List Attribute

abbrev pub is_alpha : ℕ → Bool
is_alpha c = (leb b'a' c && leb c b'z') || (leb b'A' c && leb c b'Z')

abbrev pub is_alnum : ℕ → Bool
is_alnum c = is_alpha c || (leb b'0' c && leb c b'9')

abbrev pub is_blank : ℕ → Bool
is_blank c = (c == b' ') || (c == b'\t') || (c == b'\r') || (c == b'\n')

-- a byte of a tag or of an attribute's name
abbrev pub is_name_byte : ℕ → Bool
is_name_byte c = is_alnum c || (c == b'_')

-- a byte at which a value's loop goes on
abbrev pub is_value_byte : ℕ → Bool
is_value_byte c = not ((c == b'\n') || (c == b'\r') || (c == b'>') || (c == b'"'))

-- `while (string[pos] && ...) pos += 1;`: what is passed, and the rest
pub span : (ℕ → Bool) → Text → Text × Text
span holds [] = ([], [])
span holds (c ∷ s) =
    let more : Text × Text = (c ∷ (span holds s).0, (span holds s).1) in
    if holds c then more else ([], c ∷ s)

-- `SkipBlanks`
pub skip_blanks : Text → Text
skip_blanks [] = []
skip_blanks (c ∷ s) = let rest = skip_blanks s in if is_blank c then rest else c ∷ s

-- `findNode`
unfoldable pub find_node : {S : Type 0} → Text → List (Node S) → Option (Node S)
find_node name [] = none
find_node name (n ∷ nodes) =
    let rest = find_node name nodes in if text_eq name n.tag then some n else rest

-- the node that `findNode` gives has these attributes from now on
unfoldable pub set_node : {S : Type 0} → Text → List Attribute → List (Node S) → List (Node S)
set_node name attributes [] = []
set_node name attributes (n ∷ nodes) =
    let rest = n ∷ set_node name attributes nodes in
    if text_eq name n.tag then record n { attributes = attributes } ∷ nodes else rest

-- `findAttribute`, and the value stored where it is not NULL
unfoldable pub set_attribute : Text → Text → List Attribute → List Attribute
set_attribute name value [] = []
set_attribute name value (a ∷ attributes) =
    let rest = a ∷ set_attribute name value attributes in
    if text_eq name a.name then record a { value = some value } ∷ attributes else rest
