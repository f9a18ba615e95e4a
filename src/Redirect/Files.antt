-- ===== src/Redirect/Files.antt =====
-- tsp_redirect.c: the broker list file and the last server file. A file is the text that it holds
-- (without NUL bytes); `none` stands for a file that cannot be opened, or for a NULL name.
pub mod Laws
use gogoc_android.Prelude.{
  ℕ, ◌+◌, ◌-◌, Bool, true, false, List, [], ◌∷◌, ◌++◌, Option, none, some, ltb, ◌==◌, ◌||◌,
  if◌then◌else◌, length,
}
use gogoc_android.Cstring.{Text, Printf}
use gogoc_android.Redirect.{
  RedirectStatus, ok, is_ok, internal_err, cant_open_file, no_last_server, cant_write_to_file,
  cant_add_broker_to_list, too_many_brokers, none_type, Broker, max_redirect_brokers_in_list,
}
use gogoc_android.Redirect.Listing.{add_broker}

abbrev pub max_redirect_line_length : ℕ
max_redirect_line_length = 255

abbrev pub is_break : ℕ → Bool
is_break c = (c == b'\n') || (c == b'\r')

-- at the end of the file: a line is returned only if a byte was read
abbrev pub last_line : Text → List Text
last_line [] = []
last_line (c ∷ line) = (c ∷ line) ∷ []

-- The lines that `fgets(line, size, file)` returns in turn until NULL: each ends at a newline, or
-- holds `size - 1` bytes, or is the last. `line` is what has been read of the current one.
pub fgets_lines : ℕ → Text → Text → List Text
fgets_lines size line [] = last_line line
fgets_lines size line (c ∷ rest) =
    let line' = line ++ (c ∷ []) in
    let cut = line' ∷ fgets_lines size [] rest in
    let more = fgets_lines size line' rest in
    if (c == b'\n') || (length line' == size - 1) then cut else more

-- `if (strlen(line) && (last is '\n' or '\r')) line[strlen(line) - 1] = '\0'`
pub strip_break : Text → Text
strip_break [] = []
strip_break (c ∷ []) = if is_break c then [] else c ∷ []
strip_break (c ∷ d ∷ s) = c ∷ strip_break (d ∷ s)

abbrev pub chomp : Text → Text
chomp line = strip_break (strip_break line)

-- The result of opening a named file: NULL name, unopenable, or opened.
pub data Opened {ℓ} (A : Type ℓ) : Type ℓ where
  no_name : Opened A
  not_opened : Opened A
  opened : A → Opened A

-- `tspWriteBrokerListToFile`: `written n` says whether the n-th `fprintf` succeeds.
pub write_brokers : (ℕ → Bool) → ℕ → List Broker → RedirectStatus × Text
write_brokers written n [] = (ok, [])
write_brokers written n (b ∷ bs) =
    let (status, rest) = write_brokers written (n + 1) bs in
    if written n then (status, b.address ++ (b'\n' ∷ rest)) else (cant_write_to_file, [])

pub write_broker_list_to_file : Opened (ℕ → Bool) → List Broker → RedirectStatus × Option Text
write_broker_list_to_file no_name list = (internal_err, none)
write_broker_list_to_file not_opened list = (cant_open_file, none)
write_broker_list_to_file (opened written) list =
    let (status, text) = write_brokers written 0 list in (status, some text)

-- `tspWriteLastServerToFile`
pub write_last_server_to_file : Opened Bool → Option Text → RedirectStatus × Option Text
write_last_server_to_file no_name server = (internal_err, none)
write_last_server_to_file file none = (internal_err, none)
write_last_server_to_file not_opened (some server) = (cant_open_file, none)
write_last_server_to_file (opened written) (some server) =
    if written then (ok, some (server ++ (b'\n' ∷ []))) else (cant_write_to_file, some [])

-- `*line == '#' || *line == '\r' || *line == '\n'`
abbrev pub is_skipped : Text → Bool
is_skipped [] = false
is_skipped (c ∷ s) = (c == b'#') || is_break c

module _ (printf : Printf) where
  -- `tspReadLastServerFromFile`: the first line that is no comment and not blank. The line is the
  -- format of the `sprintf` into the caller's buffer.
  pub last_server_of : List Text → RedirectStatus × Option Text
  last_server_of [] = (no_last_server, none)
  last_server_of (line ∷ rest) =
      if is_skipped line then last_server_of rest else (ok, some (printf.expand (chomp line)))

  pub read_last_server_from_file : Opened Text → RedirectStatus × Option Text
  unfolding last_server_of
  read_last_server_from_file no_name = (internal_err, none)
  read_last_server_from_file not_opened = (cant_open_file, none)
  read_last_server_from_file (opened text) =
      last_server_of (fgets_lines max_redirect_line_length [] text)

  -- `tspReadBrokerListFromFile`: the loop over the lines.
  pub read_brokers : (ℕ → Bool) → List Text → List Broker → ℕ → RedirectStatus × List Broker
  read_brokers memory [] list count = (ok, list)
  read_brokers memory (line ∷ lines) list count =
      let (added, list') = add_broker printf (memory count) list (some (chomp line)) none_type 0 in
      let next = read_brokers memory lines list' (count + 1) in
      let skip = read_brokers memory lines list count in
      if ltb 0 (length (chomp line))
      then (if ltb count max_redirect_brokers_in_list
          then (if is_ok added then next else (cant_add_broker_to_list, list))
          else (too_many_brokers, list))
      else skip

  pub read_broker_list_from_file : (ℕ → Bool) → Opened Text → RedirectStatus × List Broker
  unfolding read_brokers
  read_broker_list_from_file memory no_name = (internal_err, [])
  read_broker_list_from_file memory not_opened = (cant_open_file, [])
  read_broker_list_from_file memory (opened text) =
      read_brokers memory (fgets_lines max_redirect_line_length [] text) [] 0
