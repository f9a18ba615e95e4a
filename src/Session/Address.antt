-- ===== src/Session/Address.antt =====
-- native/gogoc-1_2-RELEASE/gogoc-tsp/src/net/net.c: `parse_addr_port`.
pub mod Laws
use gogoc_android.Prelude.{
  ℕ, Bool, true, false, List, [], ◌∷◌, ltb, ◌==◌, ◌||◌, ◌-◌, ◌++◌, if◌then◌else◌, take, drop,
}
use gogoc_android.Cstring.{Text}
use gogoc_android.Cstring.Numbers.{ℤ, pos, negsuc, atoi}

-- `strchr(s, c) != NULL`
unfoldable pub contains : ℕ → Text → Bool
contains c [] = false
contains c (d ∷ s) = (d == c) || contains c s

-- The text before the first `d`, and what follows that `d`.
unfoldable pub break_at : ℕ → Text → Text × Text
break_at d [] = ([], [])
break_at d (c ∷ s) =
    let (token, rest) = break_at d s in if c == d then ([], s) else (c ∷ token, rest)

-- the leading bytes `d`, and the rest
unfoldable pub skip_all : ℕ → Text → Text × Text
skip_all d [] = ([], [])
skip_all d (c ∷ s) =
    let (skipped, rest) = skip_all d s in if c == d then (c ∷ skipped, rest) else ([], c ∷ s)

-- `strtok` with the one delimiter `d`: what it skips, the token (empty if it returns NULL), and where
-- the next call goes on.
unfoldable pub strtok : ℕ → Text → Text × Text × Text
strtok d s =
    let (skipped, found) = skip_all d s in
    let (token, rest) = break_at d found in (skipped, token, rest)

-- `crash` is the `strlen` of the NULL pointer that `strtok` returns when there is no name.
pub data Parsed : Type 0 where
  parsed : Text → ℕ → Parsed
  parse_error : Parsed
  crash : Parsed

-- the name and the port's text
unfoldable pub parse_port : Text → Text → ℕ → Parsed
parse_port name [] dflt_port = parsed name dflt_port
parse_port name (c ∷ port) dflt_port = elim (atoi (c ∷ port)) [
  | pos n ↦ if ltb 0 n then (if ltb n 65536 then parsed name n else parse_error) else parse_error
  | negsuc n ↦ parse_error
]

abbrev pub max_name : ℕ
max_name = 1024

-- after the memory for the name is there
unfoldable pub parse_name : Text → Text → ℕ → Parsed
parse_name name rest dflt_port =
    let (_, port, _) = strtok b':' rest in parse_port name port dflt_port

-- without brackets
unfoldable pub parse_host : Bool → Text → Text → ℕ → Parsed
parse_host memory [] rest dflt_port = crash
parse_host memory (c ∷ name) rest dflt_port =
    if memory then parse_name (c ∷ name) rest dflt_port else parse_error

-- on the copy in the buffer
unfoldable pub parse_buffer : Bool → Text → ℕ → Parsed
parse_buffer memory buffer dflt_port =
    if contains b'[' buffer
    then (let (skipped, token, rest) = strtok b']' buffer in
        if memory then parse_name (drop 1 (skipped ++ token)) rest dflt_port else parse_error)
    else (let (_, token, rest) = strtok b':' buffer in parse_host memory token rest dflt_port)

unfoldable pub parse_addr_port : Bool → Text → ℕ → Parsed
parse_addr_port memory addr_port dflt_port =
    parse_buffer memory (take (max_name - 1) addr_port) dflt_port
