-- ===== src/Config/Lines/Faults.antt =====
-- The two files that break `tspReadConfigFile`: a known name without a value, and a line that is
-- longer than the buffer.
use gogoc_android.Prelude.{
  ℕ, zero, suc, ◌+◌, ◌<◌, ◌≡◌, ◌≢◌, ◌∙◌, refl, true, List, [], ◌∷◌, ◌++◌, Option, none, some,
  length, All, arith,
}
use gogoc_android.Cstring.{Text, text_eq}
use gogoc_android.Config.{
  Settings, Key, key_name, userid_key, passwd_key, server_key, auth_method_key, gogoc_dir_key,
  template_key, broker_list_key, dsa_keys_key, last_server_key, if_prefix_key, dns_server_key,
  tunnel_mode_key, if_tunnel_v6v4_key, if_tunnel_v6udpv4_key, if_tunnel_v4v6_key, defaults,
}
use gogoc_android.Config.Lines.{
  Realloc, moved, line_read, freed_line, read_bytes, readline, c_string, null_value, freed_block,
  apply_line, read_round, read_lines, read_config_file, line_size,
}
use gogoc_android.Config.Lines.Laws.{
  Entry, print_entries, IsShortLine, apply_entries, IsLine, read_bytes-line, c_string-line,
  read_config_file-prefix,
}

module _ (strdup : Text → Option Text) (realloc : ℕ → Realloc) where
  apply_line-name : (key : Key) (s : Settings) → apply_line strdup (key_name key) s ≡ none
  unfolding apply_line text_eq
  apply_line-name userid_key s = refl
  apply_line-name passwd_key s = refl
  apply_line-name server_key s = refl
  apply_line-name auth_method_key s = refl
  apply_line-name gogoc_dir_key s = refl
  apply_line-name template_key s = refl
  apply_line-name broker_list_key s = refl
  apply_line-name dsa_keys_key s = refl
  apply_line-name last_server_key s = refl
  apply_line-name if_prefix_key s = refl
  apply_line-name dns_server_key s = refl
  apply_line-name tunnel_mode_key s = refl
  apply_line-name if_tunnel_v6v4_key s = refl
  apply_line-name if_tunnel_v6udpv4_key s = refl
  apply_line-name if_tunnel_v4v6_key s = refl

  key_name-IsLine : (key : Key) → IsLine (key_name key) × (length (key_name key) < 255)
  key_name-IsLine userid_key = ground arith
  key_name-IsLine passwd_key = ground arith
  key_name-IsLine server_key = ground arith
  key_name-IsLine auth_method_key = ground arith
  key_name-IsLine gogoc_dir_key = ground arith
  key_name-IsLine template_key = ground arith
  key_name-IsLine broker_list_key = ground arith
  key_name-IsLine dsa_keys_key = ground arith
  key_name-IsLine last_server_key = ground arith
  key_name-IsLine if_prefix_key = ground arith
  key_name-IsLine dns_server_key = ground arith
  key_name-IsLine tunnel_mode_key = ground arith
  key_name-IsLine if_tunnel_v6v4_key = ground arith
  key_name-IsLine if_tunnel_v6udpv4_key = ground arith
  key_name-IsLine if_tunnel_v4v6_key = ground arith

  read_lines-null :
      (fuel : ℕ) (input line rest : Text) (count len : ℕ) (s : Settings)
      → read_bytes realloc 0 line_size input ≡ line_read line count len rest
      → 0 < count
      → apply_line strdup (c_string line) s ≡ none
      → read_lines strdup true realloc (suc fuel) (some line_size) input s ≡ null_value
  unfolding read_lines readline read_round
  read_lines-null fuel input line rest count len s e h a = ground arith

  read_lines-name :
      (fuel : ℕ) (key : Key) (rest : Text) (s : Settings)
      → 0 < fuel
      → read_lines strdup true realloc fuel (some line_size) (key_name key ++ (b'\n' ∷ rest)) s
        ≡ null_value
  read_lines-name zero key rest s h = absurd (omega arith)
  read_lines-name (suc fuel) key rest s h =
      read_lines-null fuel (key_name key ++ (b'\n' ∷ rest)) (key_name key) rest
        (0 + length (key_name key) + 1) line_size s
        (read_bytes-line realloc 0 line_size (key_name key) rest (key_name-IsLine key).0
          (omega (arith, (key_name-IsLine key).1)))
        (omega arith)
        (rw (c_string-line (key_name key) (key_name-IsLine key).0) (apply_line-name key s))

  -- A line that has a known name and no `=`, after any good lines and before anything else, makes
  -- the client dereference a NULL pointer.
  pub missing_value_faults :
      (es : List Entry) (key : Key) (rest : Text) (s : Settings)
      → All IsShortLine es
      → read_config_file strdup true realloc
          (some (print_entries es ++ (key_name key ++ (b'\n' ∷ rest))))
          s
        ≡ null_value
  missing_value_faults es key rest s p =
      let (more, room, e) =
        read_config_file-prefix strdup realloc es (key_name key ++ (b'\n' ∷ rest)) s p in
      e ∙ read_lines-name more key rest (apply_entries strdup es (defaults strdup s)) (omega arith)

  read_lines-freed :
      (fuel : ℕ) (input : Text) (s : Settings)
      → 0 < fuel
      → read_bytes realloc 0 line_size input ≡ freed_line
      → read_lines strdup true realloc fuel (some line_size) input s ≡ freed_block
  unfolding read_lines readline read_round
  read_lines-freed zero input s h e = absurd (omega arith)
  read_lines-freed (suc fuel) input s h e = ground arith

  read_bytes-full :
      (count len c : ℕ) (line rest : Text)
      → All (λ c. c ≢ b'\n') line
      → count + length line + 1 ≡ len
      → realloc (len + line_size) ≡ moved
      → read_bytes realloc count len (line ++ (c ∷ rest)) ≡ freed_line
  unfolding read_bytes
  read_bytes-full count len c [] rest p h m = ground arith
  read_bytes-full count len c (d ∷ line) rest p h m =
      ground (arith, read_bytes-full (count + 1) len c line rest p.1)

  -- A line of 255 bytes or more before its newline, after any good lines, makes the buffer grow, and the
  -- result of realloc is dropped: if the block has moved, the client goes on in memory that is freed.
  pub long_line_faults :
      (es : List Entry) (line : Text) (c : ℕ) (rest : Text) (s : Settings)
      → All IsShortLine es
      → All (λ d. d ≢ b'\n') line
      → length line ≡ 255
      → realloc 512 ≡ moved
      → read_config_file strdup true realloc (some (print_entries es ++ (line ++ (c ∷ rest)))) s
        ≡ freed_block
  long_line_faults es line c rest s p q h m =
      let (more, room, e) = read_config_file-prefix strdup realloc es (line ++ (c ∷ rest)) s p in
      e
      ∙ read_lines-freed more (line ++ (c ∷ rest)) (apply_entries strdup es (defaults strdup s))
          (omega arith) (read_bytes-full 0 line_size c line rest q (omega arith) m)
