-- ===== src/Config/Fix.antt =====
-- src/lib/cnfchk.c, which is in the sources but not in the list that Android.mk builds: `tspFixConfig`, which is to replace the template names of older versions in the
-- configuration file, and `readfixwrite`.
use gogoc_android.Prelude.{
  ℕ, suc, ◌≡◌, refl, List, [], ◌∷◌, ◌++◌, Option, none, some, ◌==◌, take, drop, length,
  if◌then◌else◌,
}
use gogoc_android.Cstring.{Text, text_eq}
use gogoc_android.Cstring.Numbers.{ℤ, negsuc}
use gogoc_android.Status.{make_status, cfg_validation, success, context_value, code_value}
use gogoc_android.Redirect.Files.{fgets_lines}
use gogoc_android.Config.{Settings}
use gogoc_android.Config.Lines.{Parsed, parsed, null_value, freed_block, unfinished, c_string}

abbrev freebsd44_name : Text
freebsd44_name = b'f' ∷ b'r' ∷ b'e' ∷ b'e' ∷ b'b' ∷ b's' ∷ b'd' ∷ b'4' ∷ b'4' ∷ []

abbrev freebsd_name : Text
freebsd_name = b'f' ∷ b'r' ∷ b'e' ∷ b'e' ∷ b'b' ∷ b's' ∷ b'd' ∷ []

abbrev freebsd4_name : Text
freebsd4_name = b'f' ∷ b'r' ∷ b'e' ∷ b'e' ∷ b'b' ∷ b's' ∷ b'd' ∷ b'4' ∷ []

abbrev windows2000_name : Text
windows2000_name = b'w' ∷ b'i' ∷ b'n' ∷ b'd' ∷ b'o' ∷ b'w' ∷ b's' ∷ b'2' ∷ b'0' ∷ b'0' ∷ b'0' ∷ []

abbrev windows_name : Text
windows_name = b'w' ∷ b'i' ∷ b'n' ∷ b'd' ∷ b'o' ∷ b'w' ∷ b's' ∷ []

abbrev windows2003_name : Text
windows2003_name = b'w' ∷ b'i' ∷ b'n' ∷ b'd' ∷ b'o' ∷ b'w' ∷ b's' ∷ b'2' ∷ b'0' ∷ b'0' ∷ b'3' ∷ []

abbrev windowsxp_name : Text
windowsxp_name = b'w' ∷ b'i' ∷ b'n' ∷ b'd' ∷ b'o' ∷ b'w' ∷ b's' ∷ b'X' ∷ b'P' ∷ []

abbrev solaris8_name : Text
solaris8_name = b's' ∷ b'o' ∷ b'l' ∷ b'a' ∷ b'r' ∷ b'i' ∷ b's' ∷ b'8' ∷ []

abbrev solaris_name : Text
solaris_name = b's' ∷ b'o' ∷ b'l' ∷ b'a' ∷ b'r' ∷ b'i' ∷ b's' ∷ []

abbrev template_equals : Text
template_equals = b't' ∷ b'e' ∷ b'm' ∷ b'p' ∷ b'l' ∷ b'a' ∷ b't' ∷ b'e' ∷ b'=' ∷ []

abbrev pub template_mappings : List (Text × Text)
template_mappings =
    (freebsd44_name, freebsd_name)
    ∷ (freebsd4_name, freebsd_name)
    ∷ (windows2000_name, windows_name)
    ∷ (windows2003_name, windows_name)
    ∷ (windowsxp_name, windows_name)
    ∷ (solaris8_name, solaris_name)
    ∷ []

-- `strncpy(buf, line, strlen(pname))`: no 0 is written behind a line that is long enough, so that
-- what the stack held before follows.
pub copied_start : Text → Text → Text → Text
copied_start pname line stack =
    c_string (take (length pname) (line ++ (0 ∷ [])) ++ drop (length pname) stack)

-- the loop of `readfixwrite`, on the lines that fgets gives and what `buf` holds before each
pub fix_lines : Text → Text → (ℕ → Text) → ℕ → List Text → Text
unfolding copied_start
fix_lines pname pvalue stack n [] = []
fix_lines pname pvalue stack n (line ∷ lines) =
    let rest = fix_lines pname pvalue stack (suc n) lines in
    if text_eq (copied_start pname line (stack n)) pname
    then pname ++ (pvalue ++ (b'\n' ∷ rest))
    else line ++ rest

-- `readfixwrite`, where both files can be opened: the file that takes the place of the old one
pub read_fix_write : Text → Text → (ℕ → Text) → Text → Text
unfolding fix_lines
read_fix_write pname pvalue stack file = fix_lines pname pvalue stack 0 (fgets_lines 256 [] file)

-- the loop over the mappings
pub fix_templates : (ℕ → Text) → List (Text × Text) → Text → Text → Text
unfolding read_fix_write
fix_templates stack [] template file = file
fix_templates stack ((old, new) ∷ mappings) template file =
    let fixed =
      fix_templates stack mappings template (read_fix_write template_equals new stack file) in
    let same = fix_templates stack mappings template file in
    if text_eq template old then fixed else same

-- what is returned and the file; `none` if reading the configuration ended the client
abbrev pub fix_read : (ℕ → Text) → ℕ → Parsed → Text → Option (ℤ × Text)
fix_read stack status null_value file = none
fix_read stack status freed_block file = none
fix_read stack status unfinished file = none
fix_read stack status (parsed s) file =
    let fixed : Option (ℤ × Text) = elim s.template [
      | none ↦ some (negsuc 0, file)
      | some template ↦ some (negsuc 0, fix_templates stack template_mappings template file)
    ] in
    if status == 0 then fixed else some (negsuc 0, file)

-- `tspFixConfig`, on what reading the file gives
pub tsp_fix_config : (ℕ → Text) → Parsed → Text → Option (ℤ × Text)
unfolding fix_templates make_status
tsp_fix_config stack read file =
    fix_read stack (make_status (context_value cfg_validation) (code_value success)) read file

-- The status of a configuration that was read is not 0, for it holds its context, and the function
-- takes it for a failure: the file is never changed.
tsp_fix_config_keeps :
    (stack : ℕ → Text) (s : Settings) (file : Text)
    → tsp_fix_config stack (parsed s) file ≡ some (negsuc 0, file)
unfolding tsp_fix_config make_status
tsp_fix_config_keeps stack s file = refl
