-- ===== src/Xml/Parse/Faults.antt =====
-- Documents that the parser accepts without a word, and those that take it out of its memory.
use gogoc_android.Prelude.{
  ℕ, ◌≤◌, ◌≡◌, ◌∙◌, ◌==◌, refl, true, false, List, [], ◌∷◌, ◌++◌, Option, none, some, length,
  length-append, arith,
}
use gogoc_android.Cstring.{Text}
use gogoc_android.Cstring.Numbers.{pos}
use gogoc_android.Xml.{Node, is_blank, is_name_byte, skip_blanks, find_node}
use gogoc_android.Xml.Parse.{
  returned, token_overflow, overrun, Call, tag_end, end_token, element, unknown_element,
  closed_element, spaced_element, after_tag, start_tag, start_element, parse_loop, xml_parse,
}
use gogoc_android.Xml.Parse.Texts.{IsName, span-append}

module _ {S : Type 0} (nodes : List (Node S)) (s : S) where
  -- Any text that begins neither with a blank nor with `<` is parsed with the result 0, success, and
  -- without effect: the position of the error is 0.
  pub bare_text_accepted :
      (c : ℕ) (rest : Text)
      → is_blank c ≡ false
      → (c == b'<') ≡ false
      → xml_parse true (c ∷ rest) nodes s ≡ (returned (pos 0), nodes, s)
  unfolding xml_parse parse_loop start_element skip_blanks
  bare_text_accepted c rest h k = rw (h, k) (ground arith)

  start_tag-end :
      (total end : ℕ) (tag rest : Text) (next : List (Node S) → Text → S → Call S)
      → IsName tag
      → is_name_byte end ≡ false
      → start_tag total (tag ++ (end ∷ rest)) nodes s next
        ≡ after_tag total tag (tag_end (end ∷ rest)) nodes s next
  unfolding start_tag
  start_tag-end total end [] rest next p h = absurd (omega (arith, p))
  start_tag-end total end (c ∷ tag) rest next p h =
      rw (p.0, span-append is_name_byte tag end rest p.1 h) refl

  element-overflow :
      (total c : ℕ) (tag rest : Text) (o : Option (Node S)) (next : Text → S → Call S)
      → 97 ≤ length tag
      → closed_element total tag o false (c ∷ rest) nodes s next ≡ (token_overflow, nodes, s)
  unfolding closed_element unknown_element element end_token
  element-overflow total c tag rest none next h = ground (arith, length-append tag (b'>' ∷ []))
  element-overflow total c tag rest (some n) next h = ground (arith, length-append tag (b'>' ∷ []))

  -- A document that opens with a tag of 97 bytes or more, in the table or not, without attributes and
  -- not closing itself (such a tag has no end tag), makes the parser write the end tag past the end of
  -- the 100 bytes of `endToken`.
  pub long_tag_overflows :
      (tag : Text) (c : ℕ) (rest : Text)
      → IsName tag
      → 97 ≤ length tag
      → xml_parse true (b'<' ∷ (tag ++ (b'>' ∷ c ∷ rest))) nodes s ≡ (token_overflow, nodes, s)
  unfolding xml_parse parse_loop start_element skip_blanks
  long_tag_overflows tag c rest p h =
      start_tag-end _ b'>' tag (c ∷ rest) _ p refl
      ∙ unfold after_tag tag_end in element-overflow _ c tag rest (find_node tag nodes) _ h

  -- A document that is only a tag, in the table or not, and a space behind it is read past its end.
  pub truncated_tag_overruns :
      (tag : Text)
      → IsName tag
      → xml_parse true (b'<' ∷ (tag ++ (b' ' ∷ []))) nodes s ≡ (overrun, nodes, s)
  unfolding xml_parse parse_loop start_element skip_blanks
  truncated_tag_overruns tag p =
      start_tag-end _ b' ' tag [] _ p refl ∙ unfold after_tag tag_end spaced_element in ground arith
