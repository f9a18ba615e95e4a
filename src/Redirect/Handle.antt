-- ===== src/Redirect/Handle.antt =====
-- tsp_redirect.c: `tspHandleRedirect`, which turns a redirection into a list of brokers to try. The
-- XML of the payload is read by `tspExtractPayload`, whose result it is given.
pub mod Laws
use gogoc_android.Prelude.{ℕ, Bool, List, Option, none, some, ltb, ◌==◌, if◌then◌else◌}
use gogoc_android.Cstring.{Text, Printf}
use gogoc_android.Redirect.{
  RedirectStatus, ok, is_ok, cant_extract_payload, cant_create_list, cant_sort_list,
  empty_broker_list, Broker, RedirectInfo,
}
use gogoc_android.Redirect.Listing.{create_broker_list}
use gogoc_android.Redirect.Sorting.{Resources, sort_broker_list}
use gogoc_android.Redirect.Files.{Opened, write_broker_list_to_file}

-- What handling a redirection meets: the formatter, the memory, the threads and the list's file.
pub record Handler : Type 0 where
  pub printf : Printf
  pub memory : ℕ → Bool
  pub resources : Resources
  pub broker_list_file : Opened (ℕ → Bool)

-- The status, `*broker_list`, and the text written to the broker list file, if it was opened.
-- Failures to log and to save are not passed on.
unfoldable pub handle_redirect :
    Handler → Option RedirectInfo → List Broker → RedirectStatus × List Broker × Option Text
handle_redirect h none list = (cant_extract_payload, list, none)
handle_redirect h (some info) list =
    let (created, list', count) = create_broker_list h.printf h.memory info in
    let (sorted, list'') = sort_broker_list h.resources list' count in
    if is_ok created
    then (if ltb 1 count
        then (if is_ok sorted
            then (ok, list'', (write_broker_list_to_file h.broker_list_file list'').1)
            else (cant_sort_list, list'', none))
        else (if count == 0 then (empty_broker_list, list', none) else (ok, list', none)))
    else (cant_create_list, list', none)
