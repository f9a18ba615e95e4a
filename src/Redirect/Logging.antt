-- ===== src/Redirect/Logging.antt =====
-- tsp_redirect.c: `tspLogRedirectionList`, which prints the addresses of a broker list into a local
-- buffer of 4096 bytes. The model returns all the bytes that the `sprintf` calls store.
pub mod Laws
use gogoc_android.Prelude.{
  ℕ, ◌+◌, ◌-◌, Bool, true, false, List, [], ◌∷◌, ◌++◌, leb, if◌then◌else◌, length,
}
use gogoc_android.Cstring.{Text}
use gogoc_android.Redirect.{Broker, max_broker_list_string_length}

abbrev pub list_start : Text
list_start = b'[' ∷ b' ' ∷ []

abbrev pub list_end : Text
list_end = b' ' ∷ b']' ∷ []

abbrev pub list_separator : Text
list_separator = b',' ∷ b' ' ∷ []

abbrev pub list_suspension : Text
list_suspension = b'.' ∷ b'.' ∷ b'.' ∷ []

-- computed once, before the loop
abbrev pub space_left : ℕ
space_left =
    max_broker_list_string_length
    - 1
    - (length list_start + length list_separator + length list_suspension + length list_end)

-- the loop; `first_broker` is its flag, and a list that does not fit ends it
pub log_brokers : Bool → List Broker → Text
log_brokers first_broker [] = []
log_brokers true (b ∷ bs) =
    if leb (length b.address) space_left then b.address ++ log_brokers false bs else list_suspension
log_brokers false (b ∷ bs) =
    if leb (length list_separator + length b.address) space_left
    then list_separator ++ (b.address ++ log_brokers false bs)
    else list_separator ++ list_suspension

pub log_redirection_list : List Broker → Text
unfolding log_brokers
log_redirection_list list = list_start ++ (log_brokers true list ++ list_end)
