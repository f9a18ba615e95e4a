-- ===== src/Session/Address/Laws.antt =====
-- A broker's address, as the client writes it for itself, and what is parsed from it.
use gogoc_android.Prelude.{
  ℕ, ◌+◌, ◌≤◌, ◌<◌, ◌≡◌, ◌≢◌, refl, sym, ap, ◌∙◌, Bool, true, false, [], ◌∷◌, ◌++◌, some,
  take_of_length-le, length, length-append, arith, All, All-append,
}
use gogoc_android.Cstring.{Text}
use gogoc_android.Redirect.{AddressType, none_type, fqdn, ipv4, ipv6, Broker}
use gogoc_android.Session.Address.{
  contains, break_at, skip_all, strtok, parsed, parse_port, parse_name, parse_host, parse_buffer,
  parse_addr_port,
}
use gogoc_android.Client.Outcome.{format_broker_list_addr}

-- no byte of the text is `d`
abbrev pub Avoids : ℕ → Text → Type 0
Avoids d = All (λ c. c ≢ d)

break_at-Avoids : (d : ℕ) (s : Text) → Avoids d s → break_at d s ≡ (s, [])
unfolding break_at
break_at-Avoids d [] h = refl
break_at-Avoids d (c ∷ s) h = ground (arith, break_at-Avoids d s h.1, h.0)

break_at-here : (d : ℕ) (s rest : Text) → Avoids d s → break_at d (s ++ (d ∷ rest)) ≡ (s, rest)
unfolding break_at
break_at-here d [] rest h = ground arith
break_at-here d (c ∷ s) rest h = ground (arith, break_at-here d s rest h.1, h.0)

skip_all-none : (d c : ℕ) (s : Text) → c ≢ d → skip_all d (c ∷ s) ≡ ([], c ∷ s)
unfolding skip_all
skip_all-none d c s h = ground arith

contains-Avoids : (d : ℕ) (s : Text) → Avoids d s → contains d s ≡ false
unfolding contains
contains-Avoids d [] h = refl
contains-Avoids d (c ∷ s) h = ground (arith, contains-Avoids d s h.1, h.0)

strtok-Avoids : (d c : ℕ) (s : Text) → Avoids d (c ∷ s) → strtok d (c ∷ s) ≡ ([], c ∷ s, [])
unfolding strtok
strtok-Avoids d c s h = rw (skip_all-none d c s h.0, break_at-Avoids d (c ∷ s) h) refl

strtok-here :
    (d c : ℕ) (s rest : Text)
    → Avoids d (c ∷ s)
    → strtok d (c ∷ (s ++ (d ∷ rest))) ≡ ([], c ∷ s, rest)
unfolding strtok
strtok-here d c s rest h =
    rw (skip_all-none d c (s ++ (d ∷ rest)) h.0, break_at-here d (c ∷ s) rest h) refl

parse_name-no_port : (name : Text) (dflt : ℕ) → parse_name name [] dflt ≡ parsed name dflt
unfolding parse_name strtok skip_all break_at parse_port
parse_name-no_port name dflt = refl

parse_addr_port-short :
    (memory : Bool) (s : Text) (dflt : ℕ)
    → length s ≤ 1023
    → parse_addr_port memory s dflt ≡ parse_buffer memory s dflt
unfolding parse_addr_port
parse_addr_port-short memory s dflt h =
    ap (λ b. parse_buffer memory b dflt) (take_of_length-le 1023 s h)

-- A name without `:` and `[` is parsed as it stands, with the default port.
parse-name :
    (c : ℕ) (name : Text) (dflt : ℕ)
    → Avoids b'[' (c ∷ name)
    → Avoids b':' (c ∷ name)
    → parse_buffer true (c ∷ name) dflt ≡ parsed (c ∷ name) dflt
unfolding parse_buffer parse_host
parse-name c name dflt b k =
    rw (contains-Avoids b'[' (c ∷ name) b, strtok-Avoids b':' c name k)
      (parse_name-no_port (c ∷ name) dflt)

parse-plain :
    (a : Text) (dflt : ℕ)
    → 0 < length a
    → Avoids b'[' a
    → Avoids b':' a
    → parse_buffer true a dflt ≡ parsed a dflt
parse-plain [] dflt p k c = absurd (omega arith)
parse-plain (d ∷ a) dflt p k c = parse-name d a dflt k c

-- An address between brackets is parsed as what stands between them, with the default port.
parse-brackets :
    (address : Text) (dflt : ℕ)
    → Avoids b']' address
    → parse_buffer true (b'[' ∷ (address ++ (b']' ∷ []))) dflt ≡ parsed address dflt
unfolding parse_buffer contains
parse-brackets address dflt k =
    rw (strtok-here b']' b'[' address [] (omega arith, k)) (parse_name-no_port address dflt)

-- a broker whose address means one thing: without `]` if it is of the type IPV6, else neither empty
-- nor with `[` or `:`
abbrev pub IsAddress : AddressType → Text → Type 0
IsAddress ipv6 a = Avoids b']' a
IsAddress _ a = (0 < length a) × Avoids b'[' a × Avoids b':' a

Roundtrip : Broker → ℕ → Type 0
Roundtrip b dflt =
    (server : Text) × (format_broker_list_addr true b ≡ (true, some server))
    × (parse_addr_port true server dflt ≡ parsed b.address dflt)

Roundtrip-plain :
    (b : Broker) (dflt : ℕ)
    → format_broker_list_addr true b ≡ (true, some b.address)
    → 0 < length b.address
    → Avoids b'[' b.address
    → Avoids b':' b.address
    → length b.address ≤ 254
    → Roundtrip b dflt
unfolding Roundtrip
Roundtrip-plain b dflt e p k c h = (
  b.address,
  e,
  parse_addr_port-short true b.address dflt (omega arith) ∙ parse-plain b.address dflt p k c,
)

Roundtrip-type :
    (t : AddressType) (a : Text) (n dflt : ℕ)
    → IsAddress t a
    → length a ≤ 254
    → Roundtrip (record { address = a; address_type = t; distance = n }) dflt
unfolding format_broker_list_addr
Roundtrip-type none_type a n dflt (p, k, c) h = Roundtrip-plain _ dflt refl p k c h
Roundtrip-type fqdn a n dflt (p, k, c) h = Roundtrip-plain _ dflt refl p k c h
Roundtrip-type ipv4 a n dflt (p, k, c) h = Roundtrip-plain _ dflt refl p k c h
Roundtrip-type ipv6 a n dflt k h =
    unfold Roundtrip in
    (
      b'[' ∷ (a ++ (b']' ∷ [])),
      refl,
      parse_addr_port-short true _ dflt (omega (arith, length-append a (b']' ∷ [])))
          ∙ parse-brackets a dflt k,
    )

-- With memory for both, a broker's address of at most 254 bytes, written by `FormatBrokerListAddr` and
-- parsed again by `parse_addr_port`, is the broker's address, with the default port, if it suits the
-- broker's type (`IsAddress`): without `]` for the type IPV6; for the types IPV4, FQDN and NONE neither
-- empty nor with `[` or `:`, so that an IPv6 address of the type NONE or a name with a port is not
-- meant.
pub broker_address_roundtrip :
    (b : Broker) (dflt : ℕ)
    → IsAddress b.address_type b.address
    → length b.address ≤ 254
    → (server : Text) × (format_broker_list_addr true b ≡ (true, some server))
      × (parse_addr_port true server dflt ≡ parsed b.address dflt)
unfolding Roundtrip
broker_address_roundtrip b dflt a h = Roundtrip-type b.address_type b.address b.distance dflt a h

parse_port-name :
    (name port found : Text) (dflt n : ℕ)
    → parse_port name port dflt ≡ parsed found n
    → found ≡ name
unfolding parse_port
parse_port-name name [] found dflt n e = ground (arith, e)
parse_port-name name (c ∷ port) found dflt n e = ground (arith, e)

parse-cut :
    (c : ℕ) (name rest : Text) (dflt : ℕ)
    → Avoids b'[' (c ∷ (name ++ (b':' ∷ rest)))
    → Avoids b':' (c ∷ name)
    → parse_buffer true (c ∷ (name ++ (b':' ∷ rest))) dflt
      ≡ parse_port (c ∷ name) (strtok b':' rest).1 dflt
unfolding parse_buffer parse_host parse_name
parse-cut c name rest dflt b k =
    rw (contains-Avoids b'[' (c ∷ (name ++ (b':' ∷ rest))) b, strtok-here b':' c name rest k) refl

-- A broker read back from the file as of the type NONE is parsed wrongly if its address has a colon:
-- only what stands before the first one is the server's name.
pub address_cut_at_colon :
    (c : ℕ) (name rest : Text) (n dflt : ℕ)
    → Avoids b'[' (c ∷ name)
    → Avoids b':' (c ∷ name)
    → Avoids b'[' rest
    → length (c ∷ name) + length rest ≤ 253
    → let b : Broker = record {
      address = c ∷ (name ++ (b':' ∷ rest));
      address_type = none_type;
      distance = n;
    } in
      (server : Text) × (format_broker_list_addr true b ≡ (true, some server))
      × (parse_addr_port true server dflt ≢ parsed b.address dflt)
unfolding format_broker_list_addr
address_cut_at_colon c name rest n dflt k1 k2 k3 h = (
  c ∷ (name ++ (b':' ∷ rest)),
  refl,
  λ e.
      let avoids : Avoids b'[' (c ∷ (name ++ (b':' ∷ rest))) =
        All-append (λ x. x ≢ b'[') (c ∷ name) (b':' ∷ rest) k1 (omega arith, k3) in
      let size = length-append (c ∷ name) (b':' ∷ rest) in
      let short =
        parse_addr_port-short true (c ∷ (name ++ (b':' ∷ rest))) dflt (omega (arith, size)) in
      let cut = parse-cut c name rest dflt avoids k2 in
      let same =
        parse_port-name (c ∷ name) _ (c ∷ (name ++ (b':' ∷ rest))) dflt dflt
          (sym cut ∙ sym short ∙ e) in
      omega (arith, size, ap length same),
)
