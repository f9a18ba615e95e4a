-- ===== src/Config/Lines/Laws.antt =====
-- A configuration file as it is meant, its text, and what reading it gives.
use gogoc_android.Prelude.{
  ℕ, zero, suc, ◌+◌, ◌-◌, ◌≤◌, ◌<◌, ◌≡◌, ◌≢◌, ◌∙◌, refl, ap, sym, true, List, [], ◌∷◌, ◌++◌, Option,
  none, some, length, length-append, All, arith,
}
use mathlib.Core.List.{append_assoc, append-nil}
use gogoc_android.Cstring.{Text, text_eq}
use gogoc_android.Config.{
  Settings, Key, key_name, userid_key, passwd_key, server_key, auth_method_key, gogoc_dir_key,
  template_key, broker_list_key, dsa_keys_key, last_server_key, if_prefix_key, dns_server_key,
  tunnel_mode_key, if_tunnel_v6v4_key, if_tunnel_v6udpv4_key, if_tunnel_v4v6_key, set_key, defaults,
}
use gogoc_android.Config.Lines.{
  Realloc, line_read, read_bytes, readline, c_string, parsed, apply_line, read_round, read_lines,
  read_config_file, line_size,
}

pub data Entry : Type 0 where
  setting : Key → Text → Entry
  comment : Text → Entry
  blank : Entry

unfoldable pub line_of : Entry → Text
line_of (setting key value) = key_name key ++ (b'=' ∷ value)
line_of (comment text) = b'#' ∷ text
line_of blank = []

pub print_entries : List Entry → Text
unfolding line_of
print_entries [] = []
print_entries (e ∷ es) = line_of e ++ (b'\n' ∷ print_entries es)

-- no byte of the line ends it, or the string
abbrev pub IsLine : Text → Type 0
IsLine = All (λ c. (c ≢ b'\n') × (c ≢ 0))

-- a line that fits the buffer, with its newline, without making it grow
abbrev pub IsShortLine : Entry → Type 0
IsShortLine e = IsLine (line_of e) × (length (line_of e) < 255)

module _ (strdup : Text → Option Text) where
  unfoldable pub apply_entries : List Entry → Settings → Settings
  apply_entries [] s = s
  apply_entries (setting key value ∷ es) s = apply_entries es (set_key strdup key value s)
  apply_entries (comment text ∷ es) s = apply_entries es s
  apply_entries (blank ∷ es) s = apply_entries es s

  apply_line-setting :
      (key : Key) (value : Text) (s : Settings)
      → apply_line strdup (line_of (setting key value)) s ≡ some (set_key strdup key value s)
  unfolding apply_line line_of text_eq
  apply_line-setting userid_key value s = refl
  apply_line-setting passwd_key value s = refl
  apply_line-setting server_key value s = refl
  apply_line-setting auth_method_key value s = refl
  apply_line-setting gogoc_dir_key value s = refl
  apply_line-setting template_key value s = refl
  apply_line-setting broker_list_key value s = refl
  apply_line-setting dsa_keys_key value s = refl
  apply_line-setting last_server_key value s = refl
  apply_line-setting if_prefix_key value s = refl
  apply_line-setting dns_server_key value s = refl
  apply_line-setting tunnel_mode_key value s = refl
  apply_line-setting if_tunnel_v6v4_key value s = refl
  apply_line-setting if_tunnel_v6udpv4_key value s = refl
  apply_line-setting if_tunnel_v4v6_key value s = refl

pub read_bytes-line :
    (realloc : ℕ → Realloc) (count len : ℕ) (line rest : Text)
    → IsLine line
    → count + length line + 1 < len
    → read_bytes realloc count len (line ++ (b'\n' ∷ rest))
      ≡ line_read line (count + length line + 1) len rest
unfolding read_bytes
read_bytes-line realloc count len [] rest p h = ground arith
read_bytes-line realloc count len (c ∷ line) rest p h =
    ground (arith, read_bytes-line realloc (count + 1) len line rest p.1)

pub c_string-line : (line : Text) → IsLine line → c_string line ≡ line
unfolding c_string
c_string-line [] p = refl
c_string-line (c ∷ line) p = ground (arith, c_string-line line p.1)

module _ (strdup : Text → Option Text) (realloc : ℕ → Realloc) where
  apply_line-entry :
      (e : Entry) (s : Settings)
      → apply_line strdup (line_of e) s ≡ some (apply_entries strdup (e ∷ []) s)
  unfolding apply_line apply_entries line_of
  apply_line-entry (setting key value) s = apply_line-setting strdup key value s
  apply_line-entry (comment text) s = refl
  apply_line-entry blank s = refl

  apply_entries-cons :
      (e : Entry) (es : List Entry) (s : Settings)
      → apply_entries strdup (e ∷ es) s ≡ apply_entries strdup es (apply_entries strdup (e ∷ []) s)
  unfolding apply_entries
  apply_entries-cons (setting key value) es s = refl
  apply_entries-cons (comment text) es s = refl
  apply_entries-cons blank es s = refl

  read_lines-next :
      (fuel : ℕ) (buffer : Option ℕ) (input line rest : Text) (count len : ℕ) (s s' : Settings)
      → readline realloc true buffer input ≡ line_read line count len rest
      → 0 < count
      → apply_line strdup (c_string line) s ≡ some s'
      → read_lines strdup true realloc (suc fuel) buffer input s
        ≡ read_lines strdup true realloc fuel (some len) rest s'
  unfolding read_lines
  read_lines-next fuel buffer input line rest count len s s' e h a = ground arith

  readline-entry :
      (e : Entry) (rest : Text)
      → IsShortLine e
      → readline realloc true (some line_size) (line_of e ++ (b'\n' ∷ rest))
        ≡ line_read (line_of e) (0 + length (line_of e) + 1) line_size rest
  unfolding readline
  readline-entry e rest p =
      read_bytes-line realloc 0 line_size (line_of e) rest p.0 (omega (arith, p.1))

  read_lines-end :
      (fuel : ℕ) (s : Settings)
      → 0 < fuel
      → read_lines strdup true realloc fuel (some line_size) [] s ≡ parsed s
  unfolding read_lines readline read_bytes read_round
  read_lines-end zero s h = absurd (omega arith)
  read_lines-end (suc fuel) s h = refl

  -- the first call allocates what later calls find
  read_lines-first :
      (input : Text) (s : Settings)
      → read_lines strdup true realloc (suc (length input)) none input s
        ≡ read_lines strdup true realloc (suc (length input)) (some line_size) input s
  unfolding read_lines readline
  read_lines-first input s = refl

  pub read_lines-print :
      (fuel more : ℕ) (es : List Entry) (rest : Text) (s : Settings)
      → All IsShortLine es
      → fuel ≡ length es + more
      → read_lines strdup true realloc fuel (some line_size) (print_entries es ++ rest) s
        ≡ read_lines strdup true realloc more (some line_size) rest (apply_entries strdup es s)
  unfolding print_entries
  read_lines-print fuel more [] rest s p h = unfold apply_entries in ground arith
  read_lines-print zero more (e ∷ es) rest s p h = absurd (omega arith)
  read_lines-print (suc fuel) more (e ∷ es) rest s p h =
      rw (append_assoc (line_of e) (b'\n' ∷ print_entries es) rest) (
        read_lines-next fuel (some line_size) (line_of e ++ (b'\n' ∷ (print_entries es ++ rest)))
          (line_of e) (print_entries es ++ rest) (0 + length (line_of e) + 1) line_size s
          (apply_entries strdup (e ∷ []) s) (readline-entry e (print_entries es ++ rest) p.0)
          (omega arith) (rw (c_string-line (line_of e) p.0.0) (apply_line-entry e s))
        ∙ read_lines-print fuel more es rest (apply_entries strdup (e ∷ []) s) p.1 (omega arith)
        ∙ ap (read_lines strdup true realloc more (some line_size) rest)
            (sym (apply_entries-cons e es s)))

  -- every printed line has at least its newline
  pub length-le-print : (es : List Entry) → length es ≤ length (print_entries es)
  unfolding print_entries
  length-le-print [] = omega arith
  length-le-print (e ∷ es) =
      omega (arith, length-append (line_of e) (b'\n' ∷ print_entries es), length-le-print es)

  -- printed lines and what follows them, from the start of the file
  pub read_config_file-prefix :
      (es : List Entry) (rest : Text) (s : Settings)
      → All IsShortLine es
      → (more : ℕ) × (length rest < more)
        × (read_config_file strdup true realloc (some (print_entries es ++ rest)) s
            ≡ read_lines strdup true realloc more
                (some line_size)
                rest
                (apply_entries strdup es (defaults strdup s)))
  unfolding read_config_file
  read_config_file-prefix es rest s p =
      let size = length (print_entries es ++ rest) in
      (
        suc size - length es,
        omega (arith, length-append (print_entries es) rest, length-le-print es),
        read_lines-first (print_entries es ++ rest) (defaults strdup s)
            ∙ read_lines-print (suc size) (suc size - length es) es rest (defaults strdup s) p
                (omega (arith, length-append (print_entries es) rest, length-le-print es)),
      )

  -- A configuration file of settings, comments and blank lines, each shorter than the line buffer
  -- and without NUL, gives the defaults with its settings made in their order; a value may hold
  -- any other byte, `=` and spaces included. The buffer must be given; it never has to grow.
  pub read_config_file-print :
      (es : List Entry) (s : Settings)
      → All IsShortLine es
      → read_config_file strdup true realloc (some (print_entries es)) s
        ≡ parsed (apply_entries strdup es (defaults strdup s))
  read_config_file-print es s p =
      let (more, room, e) = read_config_file-prefix es [] s p in
      rw append-nil at e ∙ read_lines-end more (apply_entries strdup es (defaults strdup s)) room
