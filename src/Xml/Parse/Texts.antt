-- ===== src/Xml/Parse/Texts.antt =====
-- Names, attributes and end tags in a text that was printed are found where they stand.
use mathlib.Core.List.{append_assoc}
use gogoc_android.Prelude.{
  ℕ, zero, suc, ◌+◌, ◌≤◌, ◌<◌, ◌≡◌, ◌∙◌, refl, ap, sym, Bool, true, false, List, [], ◌∷◌, ◌++◌,
  none, some, length, length-append, All, arith,
}
use gogoc_android.Cstring.{Text}
use gogoc_android.Xml.{
  Attribute, is_alpha, is_blank, is_name_byte, is_value_byte, span, skip_blanks, set_attribute,
}
use gogoc_android.Xml.Parse.{
  attribute_read, attribute_equals, attribute_quote, attribute_close, attributes_closed,
  read_attributes, drop_prefix, find_end,
}

-- a letter, and then letters, digits and `_`
abbrev pub IsName : Text → Type 0
IsName [] = ◌≡◌ {A = ℕ} 0 1
IsName (c ∷ s) = (is_alpha c ≡ true) × All (λ d. is_name_byte d ≡ true) s

abbrev pub IsValue : Text → Type 0
IsValue = All (λ c. is_value_byte c ≡ true)

-- the attributes of a printed element, its `>` and what follows
unfoldable pub print_attributes : List (Text × Text) → Text → Text
print_attributes [] rest = b'>' ∷ rest
print_attributes ((name, value) ∷ attributes) rest =
    b' ' ∷ (name ++ (b'=' ∷ b'"' ∷ (value ++ (b'"' ∷ print_attributes attributes rest))))

-- the values stored one after the other
unfoldable pub set_attributes : List (Text × Text) → List Attribute → List Attribute
set_attributes [] attributes = attributes
set_attributes ((name, value) ∷ more) attributes =
    set_attributes more (set_attribute name value attributes)

pub span-append :
    (holds : ℕ → Bool) (s : Text) (c : ℕ) (rest : Text)
    → All (λ d. holds d ≡ true) s
    → holds c ≡ false
    → span holds (s ++ (c ∷ rest)) ≡ (s, c ∷ rest)
unfolding span
span-append holds [] c rest p h = rw h refl
span-append holds (d ∷ s) c rest p h = ground (arith, span-append holds s c rest p.1 h)

alpha_not_blank : (c : ℕ) → is_alpha c ≡ true → is_blank c ≡ false
alpha_not_blank c h = ground arith

pub alpha_name : (c : ℕ) → is_alpha c ≡ true → is_name_byte c ≡ true
alpha_name c h = ground arith

attribute_equals-print :
    (c : ℕ) (name value rest : Text)
    → IsName (c ∷ name)
    → IsValue value
    → attribute_equals (span is_name_byte ((c ∷ name) ++ (b'=' ∷ b'"' ∷ (value ++ (b'"' ∷ rest)))))
      ≡ attribute_read (c ∷ name) value rest
attribute_equals-print c name value rest p q =
    ap attribute_equals (span-append is_name_byte (c ∷ name) b'=' _ (alpha_name c p.0, p.1) refl)
    ∙ unfold attribute_equals attribute_quote attribute_close in
      rw (span-append is_value_byte value b'"' rest q refl) refl

read_attributes-step :
    (fuel c : ℕ) (s name value rest : Text) (attributes : List Attribute)
    → is_alpha c ≡ true
    → attribute_equals (span is_name_byte (c ∷ s)) ≡ attribute_read name value rest
    → read_attributes (suc fuel) (skip_blanks (c ∷ s)) attributes
      ≡ read_attributes fuel (skip_blanks rest) (set_attribute name value attributes)
unfolding read_attributes skip_blanks
read_attributes-step fuel c s name value rest attributes h e = rw (alpha_not_blank c h, h, e) refl

skip_blanks-space : (s : Text) → skip_blanks (b' ' ∷ s) ≡ skip_blanks s
unfolding skip_blanks
skip_blanks-space s = refl

pub read_attributes-print :
    (fuel : ℕ) (more : List (Text × Text)) (rest : Text) (attributes : List Attribute)
    → All (λ a. IsName a.0 × IsValue a.1) more
    → length more < fuel
    → read_attributes fuel (skip_blanks (print_attributes more rest)) attributes
      ≡ (attributes_closed false rest, set_attributes more attributes)
unfolding print_attributes set_attributes
read_attributes-print zero more rest attributes p h = absurd (omega arith)
read_attributes-print (suc fuel) [] rest attributes p h = unfold read_attributes skip_blanks in refl
read_attributes-print (suc fuel) (([], value) ∷ more) rest attributes p h =
    absurd (omega (arith, p.0.0))
read_attributes-print (suc fuel) ((c ∷ name, value) ∷ more) rest attributes p h =
    ap (λ t. read_attributes (suc fuel) t attributes) (skip_blanks-space _)
    ∙ read_attributes-step fuel c _ (c ∷ name) value (print_attributes more rest) attributes p.0.0.0
        (attribute_equals-print c name value (print_attributes more rest) p.0.0 p.0.1)
    ∙ read_attributes-print fuel more rest (set_attribute (c ∷ name) value attributes) p.1
        (omega arith)

length-le-print :
    (more : List (Text × Text)) (rest : Text) → length more ≤ length (print_attributes more rest)
unfolding print_attributes
length-le-print [] rest = omega arith
length-le-print ((name, value) ∷ more) rest = omega (
  arith,
  length-append name (b'=' ∷ b'"' ∷ (value ++ (b'"' ∷ print_attributes more rest))),
  length-append value (b'"' ∷ print_attributes more rest),
  length-le-print more rest,
)

pub length-le-attributes :
    (more : List (Text × Text)) (rest : Text) → length rest ≤ length (print_attributes more rest)
unfolding print_attributes
length-le-attributes [] rest = omega arith
length-le-attributes ((name, value) ∷ more) rest = omega (
  arith,
  length-append name (b'=' ∷ b'"' ∷ (value ++ (b'"' ∷ print_attributes more rest))),
  length-append value (b'"' ∷ print_attributes more rest),
  length-le-attributes more rest,
)

-- from behind the space that ends the tag, with the fuel that the parser gives
pub read_attributes-tag :
    (c : ℕ) (name value : Text) (more : List (Text × Text)) (rest text : Text)
    (attributes : List Attribute)
    → All (λ a. IsName a.0 × IsValue a.1) ((c ∷ name, value) ∷ more)
    → text ≡ name ++ (b'=' ∷ b'"' ∷ (value ++ (b'"' ∷ print_attributes more rest)))
    → read_attributes (suc (length text) + 1) (skip_blanks (c ∷ text)) attributes
      ≡ (attributes_closed false rest, set_attributes ((c ∷ name, value) ∷ more) attributes)
read_attributes-tag c name value more rest text attributes p e =
    sym (
      ap (λ t. read_attributes (suc (length text) + 1) t attributes) (skip_blanks-space (c ∷ text)))
    ∙ rw e (
        unfold print_attributes in
        read_attributes-print _ ((c ∷ name, value) ∷ more) rest attributes p (
          omega (
            arith,
            length-append name (b'=' ∷ b'"' ∷ (value ++ (b'"' ∷ print_attributes more rest))),
            length-append value (b'"' ∷ print_attributes more rest),
            length-le-print more rest,
          )))

pub drop_prefix-append : (token rest : Text) → drop_prefix token (token ++ rest) ≡ some rest
unfolding drop_prefix
drop_prefix-append [] rest = refl
drop_prefix-append (t ∷ token) rest = ground (arith, drop_prefix-append token rest)

drop_prefix-longer :
    (token s rest : Text)
    → drop_prefix token s ≡ none
    → length token ≤ length s
    → drop_prefix token (s ++ rest) ≡ none
unfolding drop_prefix
drop_prefix-longer [] s rest e h = absurd (ground arith)
drop_prefix-longer (t ∷ token) [] rest e h = absurd (omega arith)
drop_prefix-longer (t ∷ token) (c ∷ s) rest e h = ground (arith, drop_prefix-longer token s rest)

-- the token does not begin before the end of the content
abbrev pub IsFree : Text → Text → Type 0
IsFree token [] = Unit
IsFree token (c ∷ s) = (drop_prefix token ((c ∷ s) ++ token) ≡ none) × IsFree token s

find_end-later :
    (token : Text) (c : ℕ) (s content rest : Text)
    → drop_prefix token (c ∷ s) ≡ none
    → find_end token s ≡ some (content, rest)
    → find_end token (c ∷ s) ≡ some (c ∷ content, rest)
unfolding find_end
find_end-later token c s content rest e f = rw (e, f) refl

pub find_end-print :
    (t : ℕ) (token content rest : Text)
    → IsFree (t ∷ token) content
    → find_end (t ∷ token) (content ++ ((t ∷ token) ++ rest)) ≡ some (content, rest)
unfolding find_end
find_end-print t token [] rest p = rw (drop_prefix-append (t ∷ token) rest) refl
find_end-print t token (c ∷ content) rest p =
    find_end-later (t ∷ token) c (content ++ ((t ∷ token) ++ rest)) content rest
      (sym (ap (drop_prefix (t ∷ token)) (append_assoc (c ∷ content) (t ∷ token) rest))
        ∙ drop_prefix-longer (t ∷ token) ((c ∷ content) ++ (t ∷ token)) rest p.0
            (omega (arith, length-append content (t ∷ token))))
      (find_end-print t token content rest p.1)
