-- ===== src/Redirect/Payload.antt =====
-- tspHandleRedirect on the payload of a reply: tspExtractPayload reads it, and its lists are those
-- from which the list of brokers is made.
pub mod Laws
use gogoc_android.Prelude.{zero, suc, List, Option, none, some, map, if◌then◌else◌}
use gogoc_android.Cstring.{Text}
use gogoc_android.Redirect.{RedirectStatus, Broker, RedirectInfo}
use gogoc_android.Redirect.Handle.{Handler, handle_redirect}
use gogoc_android.Xml.Tunnel.{TunnelInfo, TunnelState, Memory}
use gogoc_android.Xml.Tunnel.Tables.{Extracted, extracted, payload_fault, tsp_extract_payload}

-- the lists of `tTunnel` that the redirection reads
abbrev pub redirect_lists : TunnelInfo → RedirectInfo
redirect_lists info = record {
  broker_redirect_ipv4 = map some info.broker_redirect_ipv4;
  broker_redirect_ipv6 = map some info.broker_redirect_ipv6;
  broker_redirect_dn = map some info.broker_redirect_dn;
}

-- `none` for an error; a fault in tspExtractPayload or in a processing function that it calls, after
-- which the client does not go on, counts as one
abbrev pub redirect_info : Extracted → Option RedirectInfo
redirect_info (extracted zero t) = if t.faulted then none else some (redirect_lists t.info)
redirect_info (extracted (suc n) t) = none
redirect_info payload_fault = none

pub handle_payload :
    Handler → Memory → Text → TunnelState → List Broker → RedirectStatus × List Broker × Option Text
handle_payload h mem payload s list =
    handle_redirect h (redirect_info (tsp_extract_payload mem payload s)) list
