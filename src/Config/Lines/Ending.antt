-- ===== src/Config/Lines/Ending.antt =====
-- Reading a configuration file ends on every file; what lines longer than the buffer and names
-- without a value come to.
use gogoc_android.Prelude.{
  ℕ, zero, suc, ◌+◌, ◌<◌, ◌≡◌, ◌≢◌, ◌∙◌, ◌==◌, inl, inr, refl, Bool, true, false, [], ◌∷◌, Option,
  none, some, length, arith, Bool-cases, if◌then◌else◌,
}
use gogoc_android.Cstring.{Text}
use gogoc_android.Config.{Settings, defaults}
use gogoc_android.Config.Lines.{
  Realloc, refused, grown, moved, LineRead, line_read, line_failed, freed_line, store, read_bytes,
  readline, end_or_store, grow, c_string, read_round, go_on, Parsed, unfinished, apply_line,
  read_lines, read_config_file, line_size,
}

-- the bytes that a read has counted or left; `n` where it gives no line
abbrev pub bytes_of : LineRead → ℕ → ℕ
bytes_of (line_read line count len rest) n = length rest + count
bytes_of line_failed n = n
bytes_of freed_line n = n

bytes_of-store : (c n : ℕ) (r : LineRead) → bytes_of (store c r) n ≡ bytes_of r n
bytes_of-store c n (line_read line k len rest) = refl
bytes_of-store c n line_failed = refl
bytes_of-store c n freed_line = refl

end_or_store-bytes :
    (c count len n : ℕ) (rest : Text) (more : LineRead)
    → length rest + count ≡ n
    → bytes_of more n ≡ n
    → bytes_of (end_or_store c count len rest more) n ≡ n
end_or_store-bytes c count len n rest more h e = elim (Bool-cases (c == b'\n')) [
  | inl p ↦ rw p h
  | inr p ↦ rw p (bytes_of-store c n more ∙ e)
]

grow-bytes :
    (r : Realloc) (next : ℕ → LineRead) (len n : ℕ)
    → ((len' : ℕ) → bytes_of (next len') n ≡ n)
    → bytes_of (grow r next len) n ≡ n
grow-bytes refused next len n e = refl
grow-bytes grown next len n e = e (len + line_size)
grow-bytes moved next len n e = refl

if-bytes :
    (b : Bool) (r s : LineRead) (n : ℕ)
    → bytes_of r n ≡ n
    → bytes_of s n ≡ n
    → bytes_of (if b then r else s) n ≡ n
if-bytes true r s n e f = e
if-bytes false r s n e f = f

module _ (realloc : ℕ → Realloc) where
  read_bytes-bytes :
      (count len n : ℕ) (input : Text)
      → length input + count ≡ n
      → bytes_of (read_bytes realloc count len input) n ≡ n
  unfolding read_bytes
  read_bytes-bytes count len n [] h = h
  read_bytes-bytes count len n (c ∷ input) h =
      let next = λ (len' : ℕ).
        end_or_store c (count + 1) len' input (read_bytes realloc (count + 1) len' input) in
      let fits = λ (len' : ℕ).
        end_or_store-bytes c (count + 1) len' n input (read_bytes realloc (count + 1) len' input)
          (omega arith) (read_bytes-bytes (count + 1) len' n input (omega arith)) in
      if-bytes (count + 1 == len) (grow (realloc (len + line_size)) next len) (next len) n
        (grow-bytes (realloc (len + line_size)) next len n fits) (fits len)

  readline-bytes :
      (malloc : Bool) (buffer : Option ℕ) (input : Text)
      → bytes_of (readline realloc malloc buffer input) (length input) ≡ length input
  unfolding readline
  readline-bytes true none input = read_bytes-bytes 0 line_size (length input) input (omega arith)
  readline-bytes false none input = refl
  readline-bytes malloc (some len) input = read_bytes-bytes 0 len (length input) input (omega arith)

module _ (strdup : Text → Option Text) where
  go_on_ends :
      (o : Option Settings) (next : Settings → Parsed)
      → ((s : Settings) → next s ≢ unfinished)
      → go_on o next ≢ unfinished
  go_on_ends none next h = ground arith
  go_on_ends (some s) next h = h s

  read_round_ends :
      (r : LineRead) (next : ℕ → Text → Settings → Parsed) (s : Settings) (n : ℕ)
      → bytes_of r n ≡ n
      → ((len : ℕ) (rest : Text) (s' : Settings) → length rest < n → next len rest s' ≢ unfinished)
      → read_round strdup r next s ≢ unfinished
  unfolding read_round
  read_round_ends line_failed next s n b h = ground arith
  read_round_ends freed_line next s n b h = ground arith
  read_round_ends (line_read line zero len rest) next s n b h = ground arith
  read_round_ends (line_read line (suc count) len rest) next s n b h =
      go_on_ends (apply_line strdup (c_string line) s) (next len rest)
        (λ s'. h len rest s' (omega arith))

module _ (strdup : Text → Option Text) (malloc : Bool) (realloc : ℕ → Realloc) where
  read_lines_ends :
      (fuel : ℕ) (buffer : Option ℕ) (input : Text) (s : Settings)
      → length input < fuel
      → read_lines strdup malloc realloc fuel buffer input s ≢ unfinished
  unfolding read_lines
  read_lines_ends zero buffer input s h = absurd (omega arith)
  read_lines_ends (suc fuel) buffer input s h =
      read_round_ends strdup (readline realloc malloc buffer input) _ s (length input)
        (readline-bytes realloc malloc buffer input)
        (λ len rest s' k. read_lines_ends fuel (some len) rest s' (omega arith))

  -- Reading a configuration file ends on every file, whatever malloc, realloc and strdup answer:
  -- one round more than the file has bytes is enough.
  pub read_config_file_ends :
      (file : Option Text) (s : Settings)
      → read_config_file strdup malloc realloc file s ≢ unfinished
  unfolding read_config_file
  read_config_file_ends none s = ground arith
  read_config_file_ends (some input) s =
      read_lines_ends (suc (length input)) none input (defaults strdup s) (omega arith)
