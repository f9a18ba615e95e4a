-- ===== src/Config/Lines.antt =====
-- src/lib/config.c, Android branch: `readline` and `tspReadConfigFile`. A file is the list of its
-- bytes; the line buffer is its length, `none` before it is allocated.
pub mod Laws
pub mod Faults
pub mod Ending
use gogoc_android.Prelude.{
  ℕ, zero, suc, ◌+◌, Bool, true, false, List, [], ◌∷◌, Option, none, some, ◌==◌, if◌then◌else◌,
  length,
}
use gogoc_android.Cstring.{Text}
use gogoc_android.Status.{GogocStatus, cfg_validation, success}
use gogoc_android.Config.{Settings, Key, find_key, keys, set_key, defaults}

abbrev pub line_size : ℕ
line_size = 256

-- What `realloc` does: the code keeps the old pointer, which stays valid only if the block grows
-- where it is.
pub data Realloc : Type 0 where
  refused grown moved : Realloc

-- `line_read line count len rest`: the bytes stored before the 0, the result, the buffer's length
-- and what is left of the file. `freed_line`: a byte goes through the pointer to a block that
-- `realloc` has freed.
pub data LineRead : Type 0 where
  line_read : Text → ℕ → ℕ → Text → LineRead
  line_failed : LineRead
  freed_line : LineRead

-- a byte stored before what the rest of the loop stores
abbrev pub store : ℕ → LineRead → LineRead
store c (line_read line count len rest) = line_read (c ∷ line) count len rest
store c line_failed = line_failed
store c freed_line = freed_line

-- a newline ends the line, any other byte is kept before what the rest of the loop gives
abbrev pub end_or_store : ℕ → ℕ → ℕ → Text → LineRead → LineRead
end_or_store c count len rest more =
    if c == b'\n' then line_read [] count len rest else store c more

-- the buffer is full: `realloc`, and on with the longer buffer
abbrev pub grow : Realloc → (ℕ → LineRead) → ℕ → LineRead
grow refused next len = line_failed
grow grown next len = next (len + line_size)
grow moved next len = freed_line

module _ (realloc : ℕ → Realloc) where
  -- the loop of `readline`
  pub read_bytes : ℕ → ℕ → Text → LineRead
  read_bytes count len [] = line_read [] count len []
  read_bytes count len (c ∷ rest) =
      let next =
        λ (len' : ℕ). end_or_store c (count + 1) len' rest (read_bytes (count + 1) len' rest) in
      if count + 1 == len then grow (realloc (len + line_size)) next len else next len

  -- `readline`, which allocates the buffer on its first call
  pub readline : Bool → Option ℕ → Text → LineRead
  unfolding read_bytes
  readline malloc none input = if malloc then read_bytes 0 line_size input else line_failed
  readline malloc (some len) input = read_bytes 0 len input

-- the C string in a buffer: what stands before its first 0
pub c_string : Text → Text
c_string [] = []
c_string (c ∷ s) = let rest = c ∷ c_string s in if c == 0 then [] else rest

-- `strchr(line, '=')` with the `=` replaced by 0: the name, and the value if there is an `=`
pub split_name : Text → Text × Option Text
split_name [] = ([], none)
split_name (c ∷ s) =
    let rest : Text × Option Text = (c ∷ (split_name s).0, (split_name s).1) in
    if c == b'=' then ([], some s) else rest

-- The outcome of `tspReadConfigFile`. `null_value`: strdup or strcmp gets a NULL pointer;
-- `freed_block`: as for a line; `unfinished`: the fuel is used up.
pub data Parsed : Type 0 where
  parsed : Settings → Parsed
  null_value freed_block unfinished : Parsed

module _ (strdup : Text → Option Text) where
  -- a name and the value behind its `=`; `none` is the fault of a missing value
  pub assign_key : Option Key → Option Text → Settings → Option Settings
  unfolding set_key
  assign_key none value s = some s
  assign_key (some key) none s = none
  assign_key (some key) (some value) s = some (set_key strdup key value s)

  -- the body of the loop, on the C string of the line
  pub apply_line : Text → Settings → Option Settings
  unfolding split_name find_key assign_key
  apply_line [] s = some s
  apply_line (c ∷ line) s =
      let (name, value) = split_name (c ∷ line) in
      if c == b'#' then some s else assign_key (find_key keys name) value s

-- what follows the settings of a line, or the fault of a missing value
abbrev pub go_on : Option Settings → (Settings → Parsed) → Parsed
go_on none next = null_value
go_on (some s) next = next s

module _ (strdup : Text → Option Text) where
  -- one round of the loop, on what `readline` gives: it ends when the result is not positive
  pub read_round : LineRead → (ℕ → Text → Settings → Parsed) → Settings → Parsed
  unfolding c_string apply_line
  read_round line_failed next s = parsed s
  read_round freed_line next s = freed_block
  read_round (line_read line zero len rest) next s = parsed s
  read_round (line_read line (suc count) len rest) next s =
      go_on (apply_line strdup (c_string line) s) (next len rest)

module _ (strdup : Text → Option Text) (malloc : Bool) (realloc : ℕ → Realloc) where
  -- the loop of `tspReadConfigFile`, on fuel
  pub read_lines : ℕ → Option ℕ → Text → Settings → Parsed
  unfolding readline read_round
  read_lines zero buffer input s = unfinished
  read_lines (suc fuel) buffer input s =
      read_round strdup (readline realloc malloc buffer input)
        (λ len rest s'. read_lines fuel (some len) rest s') s

  -- `tspReadConfigFile`: a file that cannot be opened leaves the defaults. Every line takes at least
  -- one byte, so that one round more than there are bytes is enough.
  pub read_config_file : Option Text → Settings → Parsed
  unfolding read_lines defaults
  read_config_file none s = parsed (defaults strdup s)
  read_config_file (some input) s = read_lines (suc (length input)) none input (defaults strdup s)

-- the status of `tspReadConfigFile`, whatever was read
abbrev pub read_config_status : GogocStatus
read_config_status = (cfg_validation, success)
