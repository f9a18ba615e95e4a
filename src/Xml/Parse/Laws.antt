-- ===== src/Xml/Parse/Laws.antt =====
-- A printed document is parsed: every element goes to its processing function.
use gogoc_android.Prelude.{
  ℕ, zero, suc, ◌≤◌, ◌<◌, ◌≡◌, ◌∙◌, refl, true, false, List, [], ◌∷◌, ◌++◌, Option, none, some,
  length, length-append, All, arith, lt→ltb,
}
use gogoc_android.Cstring.{Text}
use gogoc_android.Cstring.Numbers.{ℤ, pos, negsuc}
use gogoc_android.Xml.{Attribute, Node, is_name_byte, skip_blanks, find_node, set_node}
use gogoc_android.Xml.Parse.{
  returned, Call, tag_end, end_token, element, closed_element, after_tag, start_tag, start_element,
  parse_loop, xml_parse, process_node,
}
use gogoc_android.Xml.Parse.Texts.{
  IsName, IsValue, print_attributes, set_attributes, span-append, read_attributes-tag,
  length-le-attributes, IsFree, find_end-print,
}

pub record Element : Type 0 where
  pub tag : Text
  pub attributes : List (Text × Text)
  pub content : Text

-- The names and values are made of their characters, the tag fits `endToken` and the content has no
-- end tag of the element.
pub record IsElement (e : Element) : Type 0 where
  pub name : IsName e.tag
  pub short : length e.tag ≤ 96
  pub attributes_valid : All (λ a. IsName a.0 × IsValue a.1) e.attributes
  pub free : IsFree (end_token e.tag) e.content

-- one line for each element
unfoldable pub print_elements : List Element → Text
unfolding print_attributes end_token
print_elements [] = []
print_elements (e ∷ es) =
    b'<'
    ∷ (e.tag
        ++ print_attributes e.attributes
            (e.content ++ (end_token e.tag ++ (b'\n' ∷ print_elements es))))

length-le-print : (es : List Element) → length es ≤ length (print_elements es)
unfolding print_elements
length-le-print [] = omega arith
length-le-print (e ∷ es) =
    let behind = e.content ++ (end_token e.tag ++ (b'\n' ∷ print_elements es)) in
    omega (
      arith,
      length-append e.tag (print_attributes e.attributes behind),
      length-le-attributes e.attributes behind,
      length-append e.content (end_token e.tag ++ (b'\n' ∷ print_elements es)),
      length-append (end_token e.tag) (b'\n' ∷ print_elements es),
      length-le-print es,
    )

module _ {S : Type 0} where
  abbrev pub when_zero : ℤ × S → (S → Option (List (Node S) × S)) → Option (List (Node S) × S)
  when_zero (pos zero, s) next = next s
  when_zero (pos (suc n), s) next = none
  when_zero (negsuc n, s) next = none

  abbrev pub with_process :
      Option (List Attribute → Text → S → ℤ × S)
      → List Attribute
      → Text
      → S
      → (S → Option (List (Node S) × S))
      → Option (List (Node S) × S)
  with_process none attributes content s next = none
  with_process (some p) attributes content s next = when_zero (p attributes content s) next

  abbrev pub with_node :
      Option (Node S) → (Node S → Option (List (Node S) × S)) → Option (List (Node S) × S)
  with_node none next = none
  with_node (some n) next = next n

  -- What a document means: each element stores its attributes in its node of the table and is
  -- processed. `none` if a tag is not in the table or a function does not return 0.
  unfoldable pub run_elements : List Element → List (Node S) → S → Option (List (Node S) × S)
  unfolding find_node set_node set_attributes
  run_elements [] nodes s = some (nodes, s)
  run_elements (e ∷ es) nodes s = with_node (find_node e.tag nodes) (λ n.
      with_process n.process (set_attributes e.attributes n.attributes) e.content s (λ s'.
        run_elements es (set_node e.tag (set_attributes e.attributes n.attributes) nodes) s'))

  set_node_self :
      (tag : Text) (nodes : List (Node S)) (n : Node S)
      → find_node tag nodes ≡ some n
      → set_node tag n.attributes nodes ≡ nodes
  unfolding find_node set_node
  set_node_self tag [] n e = absurd (ground arith)
  set_node_self tag (m ∷ nodes) n e = ground (arith, set_node_self tag nodes n)

  start_tag-print :
      (total : ℕ) (tag rest : Text) (attributes : List (Text × Text)) (nodes : List (Node S))
      (s : S) (next : List (Node S) → Text → S → Call S)
      → IsName tag
      → start_tag total (tag ++ print_attributes attributes rest) nodes s next
        ≡ after_tag total tag (tag_end (print_attributes attributes rest)) nodes s next
  unfolding start_tag print_attributes
  start_tag-print total [] rest attributes nodes s next p = absurd (omega (arith, p))
  start_tag-print total (c ∷ tag) rest [] nodes s next p =
      rw (p.0, span-append is_name_byte tag b'>' rest p.1 refl) refl
  start_tag-print total (c ∷ tag) rest ((name, value) ∷ attributes) nodes s next p =
      rw (p.0, span-append is_name_byte tag b' ' _ p.1 refl) refl

  after_tag-print :
      (total : ℕ) (tag rest : Text) (attributes : List (Text × Text)) (nodes : List (Node S))
      (n : Node S) (s : S) (next : List (Node S) → Text → S → Call S)
      → All (λ a. IsName a.0 × IsValue a.1) attributes
      → find_node tag nodes ≡ some n
      → after_tag total tag (tag_end (print_attributes attributes rest)) nodes s next
        ≡ element total tag
            (some (record n { attributes = set_attributes attributes n.attributes }))
            false
            rest
            (set_node tag (set_attributes attributes n.attributes) nodes)
            s
            (next (set_node tag (set_attributes attributes n.attributes) nodes))
  unfolding after_tag print_attributes tag_end closed_element set_attributes
  after_tag-print total tag rest [] nodes n s next p e = rw (set_node_self tag nodes n e, e) refl
  after_tag-print total tag rest (([], value) ∷ attributes) nodes n s next p e =
      absurd (omega (arith, p.0.0))
  after_tag-print total tag rest ((c ∷ name, value) ∷ attributes) nodes n s next p e =
      rw (e, read_attributes-tag c name value attributes rest _ n.attributes p refl) refl

  element-print :
      (total : ℕ) (tag content rest : Text) (n : Node S) (p : List Attribute → Text → S → ℤ × S)
      (nodes : List (Node S)) (s s' : S) (next : Text → S → Call S)
      → length tag ≤ 96
      → IsFree (end_token tag) content
      → n.process ≡ some p
      → p n.attributes content s ≡ (pos 0, s')
      → element total tag (some n) false (content ++ (end_token tag ++ rest)) nodes s next
        ≡ next rest s'
  unfolding element end_token process_node
  element-print total tag content rest n p nodes s s' next h free e f =
      rw
        (
          lt→ltb (length (end_token tag)) 100 (omega (arith, h, length-append tag (b'>' ∷ []))),
          find_end-print b'<' (b'/' ∷ (tag ++ (b'>' ∷ []))) content rest free,
          e,
          f,
        )
        refl

  when_zero_inv :
      (r : ℤ × S) (next : S → Option (List (Node S) × S)) (out : List (Node S) × S)
      → when_zero r next ≡ some out
      → (s' : S) × (r ≡ (pos 0, s')) × (next s' ≡ some out)
  when_zero_inv (pos zero, s) next out e = (s, refl, e)
  when_zero_inv (pos (suc n), s) next out e = absurd (ground arith)
  when_zero_inv (negsuc n, s) next out e = absurd (ground arith)

  -- a white line before the rest of a document
  parse_loop-blank :
      (fuel total : ℕ) (text : Text) (nodes : List (Node S)) (s : S)
      → parse_loop fuel total (b'\n' ∷ text) nodes s ≡ parse_loop fuel total text nodes s
  unfolding parse_loop skip_blanks
  parse_loop-blank zero total text nodes s = refl
  parse_loop-blank (suc fuel) total text nodes s = refl

  parse_loop-start :
      (fuel total : ℕ) (text : Text) (nodes : List (Node S)) (s : S)
      → parse_loop (suc fuel) total (b'<' ∷ text) nodes s
        ≡ start_tag total text nodes s (λ nodes' rest s'. parse_loop fuel total rest nodes' s')
  unfolding parse_loop skip_blanks start_element
  parse_loop-start fuel total text nodes s = refl

  -- one round of the parser, on an element
  parse_loop-element :
      (fuel total : ℕ) (e : Element) (rest : Text) (nodes : List (Node S)) (n : Node S)
      (p : List Attribute → Text → S → ℤ × S) (s s' : S)
      → IsElement e
      → find_node e.tag nodes ≡ some n
      → n.process ≡ some p
      → p (set_attributes e.attributes n.attributes) e.content s ≡ (pos 0, s')
      → parse_loop
          (suc fuel)
          total
          (b'<'
            ∷ (e.tag
                ++ print_attributes e.attributes
                    (e.content ++ (end_token e.tag ++ (b'\n' ∷ rest)))))
          nodes
          s
        ≡ parse_loop fuel total rest
            (set_node e.tag (set_attributes e.attributes n.attributes) nodes)
            s'
  parse_loop-element fuel total e rest nodes n p s s' v found has done =
      let next = λ (nodes' : List (Node S)) (rest' : Text) (s'' : S).
        parse_loop fuel total rest' nodes' s'' in
      let behind = e.content ++ (end_token e.tag ++ (b'\n' ∷ rest)) in
      let attributes = set_attributes e.attributes n.attributes in
      parse_loop-start fuel total (e.tag ++ print_attributes e.attributes behind) nodes s
      ∙ start_tag-print total e.tag behind e.attributes nodes s next v.name
      ∙ after_tag-print total e.tag behind e.attributes nodes n s next v.attributes_valid found
      ∙ element-print total e.tag e.content (b'\n' ∷ rest) (record n { attributes = attributes }) p
          (set_node e.tag attributes nodes) s s' (next (set_node e.tag attributes nodes)) v.short
          v.free has done
      ∙ parse_loop-blank fuel total rest (set_node e.tag attributes nodes) s'

  with_node_inv :
      (o : Option (Node S)) (next : Node S → Option (List (Node S) × S)) (out : List (Node S) × S)
      → with_node o next ≡ some out
      → (n : Node S) × (o ≡ some n) × (next n ≡ some out)
  with_node_inv none next out e = absurd (ground arith)
  with_node_inv (some n) next out e = (n, refl, e)

  with_process_inv :
      (o : Option (List Attribute → Text → S → ℤ × S)) (attributes : List Attribute)
      (content : Text) (s : S) (next : S → Option (List (Node S) × S)) (out : List (Node S) × S)
      → with_process o attributes content s next ≡ some out
      → (p : List Attribute → Text → S → ℤ × S) × (o ≡ some p)
        × (when_zero (p attributes content s) next ≡ some out)
  with_process_inv none attributes content s next out e = absurd (ground arith)
  with_process_inv (some p) attributes content s next out e = (p, refl, e)

  parse_loop-print :
      (fuel total : ℕ) (es : List Element) (nodes : List (Node S)) (s : S) (out : List (Node S) × S)
      → All IsElement es
      → length es < fuel
      → run_elements es nodes s ≡ some out
      → parse_loop fuel total (print_elements es) nodes s ≡ (returned (pos 0), out.0, out.1)
  unfolding print_elements run_elements
  parse_loop-print zero total es nodes s out v h e = absurd (omega arith)
  parse_loop-print (suc fuel) total [] nodes s out v h e =
      unfold parse_loop skip_blanks start_element in ground arith
  parse_loop-print (suc fuel) total (el ∷ es) nodes s out v h e =
      let (n, found, e') = with_node_inv (find_node el.tag nodes) _ out e in
      let (p, has, e'') = with_process_inv n.process _ el.content s _ out e' in
      let (s', done, more) = when_zero_inv _ _ out e'' in
      parse_loop-element fuel total el (print_elements es) nodes n p s s' v.0 found has done
      ∙ parse_loop-print fuel total es
          (set_node el.tag (set_attributes el.attributes n.attributes) nodes) s' out v.1
          (omega arith) more

  -- Printed elements, one on a line, are parsed as they are meant: in their order each stores the
  -- values of its attributes in its node and has its content processed, and the parser returns 0,
  -- if every tag is in the table and every processing function returns 0. An element is one that
  -- `IsElement` admits: its names and values are made of the characters of names and values, its tag
  -- has at most 96 bytes, and its content may hold anything but its own end tag, elements included.
  pub xml_parse-print :
      (es : List Element) (nodes nodes' : List (Node S)) (s s' : S)
      → All IsElement es
      → run_elements es nodes s ≡ some (nodes', s')
      → xml_parse true (print_elements es) nodes s ≡ (returned (pos 0), nodes', s')
  unfolding xml_parse
  xml_parse-print es nodes nodes' s s' v e =
      parse_loop-print (suc (length (print_elements es))) (length (print_elements es)) es nodes s
        (nodes', s') v (omega (arith, length-le-print es)) e
