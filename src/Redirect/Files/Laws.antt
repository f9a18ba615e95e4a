-- ===== src/Redirect/Files/Laws.antt =====
-- What is written to the two files is read back.
use native.Mathlib.Decide.{dec_lt}
use mathlib.Core.List.{append_assoc, append-nil}
use gogoc_android.Prelude.{
  ℕ, ◌+◌, ◌≤◌, ◌<◌, ◌≡◌, refl, ap, ◌∙◌, Bool, true, false, List, [], ◌∷◌, ◌++◌, map, some, length,
  length-append, All, arith,
}
use gogoc_android.Cstring.{Text, IsPlain, Printf}
use gogoc_android.Redirect.{ok, none_type, Broker}
use gogoc_android.Redirect.Listing.{append_broker}
use gogoc_android.Redirect.Listing.Laws.{add_broker_fits, append_broker-eq}
use gogoc_android.Redirect.Files.{
  is_break, fgets_lines, strip_break, chomp, opened, write_brokers, write_broker_list_to_file,
  read_brokers, read_broker_list_from_file, write_last_server_to_file, read_last_server_from_file,
  is_skipped,
}

-- an address that stands on one line
abbrev pub IsOneLine : Text → Type 0
IsOneLine = All (λ c. is_break c ≡ false)

-- the line is complete before the buffer is
fgets_lines-break :
    (line a s : Text)
    → IsOneLine a
    → length line + length a < 254
    → fgets_lines 255 line (a ++ (b'\n' ∷ s)) ≡ (line ++ (a ++ (b'\n' ∷ []))) ∷ fgets_lines 255 [] s
unfolding fgets_lines
fgets_lines-break line [] s p h = refl
fgets_lines-break line (c ∷ a) s p h = ground (
  arith,
  fgets_lines-break (line ++ (c ∷ [])) a s p.1,
  length-append line (c ∷ []),
  append_assoc line (c ∷ []) (a ++ (b'\n' ∷ [])),
)

-- the buffer is full just before the break, and the break is a line of its own
fgets_lines-full :
    (line a s : Text)
    → IsOneLine a
    → length line + length a ≡ 254
    → length line < 254
    → fgets_lines 255 line (a ++ s) ≡ (line ++ a) ∷ fgets_lines 255 [] s
unfolding fgets_lines
fgets_lines-full line [] s p h k = absurd (omega arith)
fgets_lines-full line (c ∷ []) s p h k = ground (arith, length-append line (c ∷ []))
fgets_lines-full line (c ∷ d ∷ a) s p h k = ground (
  arith,
  fgets_lines-full (line ++ (c ∷ [])) (d ∷ a) s p.1,
  length-append line (c ∷ []),
  append_assoc line (c ∷ []) (d ∷ a),
)

fgets_lines-blank :
    (s : Text) → fgets_lines 255 [] (b'\n' ∷ s) ≡ (b'\n' ∷ []) ∷ fgets_lines 255 [] s
unfolding fgets_lines
fgets_lines-blank s = refl

strip_break-break : (a : Text) → IsOneLine a → strip_break (a ++ (b'\n' ∷ [])) ≡ a
unfolding strip_break
strip_break-break [] p = refl
strip_break-break (c ∷ []) p = refl
strip_break-break (c ∷ d ∷ a) p = ap (λ r. c ∷ r) (strip_break-break (d ∷ a) p.1)

strip_break-none : (a : Text) → IsOneLine a → strip_break a ≡ a
unfolding strip_break
strip_break-none [] p = refl
strip_break-none (c ∷ []) p = rw p.0
strip_break-none (c ∷ d ∷ a) p = ap (λ r. c ∷ r) (strip_break-none (d ∷ a) p.1)

chomp-break : (a : Text) → IsOneLine a → chomp (a ++ (b'\n' ∷ [])) ≡ a
chomp-break a p = rw (strip_break-break a p) (strip_break-none a p)

chomp-none : (a : Text) → IsOneLine a → chomp a ≡ a
chomp-none a p = rw (strip_break-none a p) (strip_break-none a p)

is_skipped-append : (a s : Text) → 0 < length a → is_skipped (a ++ s) ≡ is_skipped a
is_skipped-append [] s h = absurd (omega arith)
is_skipped-append (c ∷ a) s h = refl

-- what an address needs in order to come back from a file
pub record IsStorable (a : Text) : Type 0 where
  pub one_line : IsOneLine a
  pub plain : IsPlain a
  pub present : 0 < length a
  pub short : length a ≤ 254

-- a broker as it is read back: neither its type nor its distance is in the file
abbrev pub reread : Broker → Broker
reread b = record { address = b.address; address_type = none_type; distance = 0 }

module _ (printf : Printf) (memory : ℕ → Bool) where
  read_brokers-cons :
      (line a : Text) (lines : List Text) (list : List Broker) (n : ℕ)
      → chomp line ≡ a
      → IsStorable a
      → memory n ≡ true
      → n < 50
      → read_brokers printf memory (line ∷ lines) list n
        ≡ read_brokers printf memory lines
            (append_broker list (record { address = a; address_type = none_type; distance = 0 }))
            (n + 1)
  unfolding read_brokers
  read_brokers-cons line a lines list n e v m h =
      rw (e, add_broker_fits printf (memory n) list a none_type 0 m v.plain v.short)
        (ground (arith, v.present))

  read_brokers-blank :
      (lines : List Text) (list : List Broker) (n : ℕ)
      → read_brokers printf memory ((b'\n' ∷ []) ∷ lines) list n
        ≡ read_brokers printf memory lines list n
  unfolding read_brokers strip_break
  read_brokers-blank lines list n = refl

  read_brokers-address :
      (a s : Text) (list : List Broker) (n : ℕ)
      → IsStorable a
      → memory n ≡ true
      → n < 50
      → read_brokers printf memory (fgets_lines 255 [] (a ++ (b'\n' ∷ s))) list n
        ≡ read_brokers printf memory
            (fgets_lines 255 [] s)
            (append_broker list (record { address = a; address_type = none_type; distance = 0 }))
            (n + 1)
  read_brokers-address a s list n v m h = elim (dec_lt (length a) 254) [
    | yes short ↦
        rw (fgets_lines-break [] a s v.one_line (omega arith))
          (read_brokers-cons (a ++ (b'\n' ∷ [])) a _ list n (chomp-break a v.one_line) v m h)
    | no full ↦
        rw (fgets_lines-full [] a (b'\n' ∷ s) v.one_line (omega (arith, v.short)) (omega arith)) (
          read_brokers-cons a a _ list n (chomp-none a v.one_line) v m h
          ∙ rw (fgets_lines-blank s) (read_brokers-blank _ _ (n + 1)))
  ]

  read_brokers_written :
      (bs list : List Broker) (n k : ℕ)
      → All (λ b. IsStorable b.address) bs
      → ((i : ℕ) → i < 50 → memory i ≡ true)
      → n + length bs ≤ 50
      → read_brokers printf memory (fgets_lines 255 [] (write_brokers (λ _. true) k bs).1) list n
        ≡ (ok, list ++ map reread bs)
  unfolding write_brokers fgets_lines read_brokers
  read_brokers_written [] list n k v room h = rw append-nil
  read_brokers_written (b ∷ bs) list n k v room h =
      read_brokers-address b.address (write_brokers (λ _. true) (k + 1) bs).1 list n v.0
        (room n (omega arith)) (omega arith)
      ∙ read_brokers_written bs (append_broker list (reread b)) (n + 1) (k + 1) v.1 room
          (omega arith)
      ∙ ap (λ l. (ok, l)) (rw append_broker-eq (append_assoc list (reread b ∷ []) (map reread bs)))

  write_brokers-ok : (k : ℕ) (bs : List Broker) → (write_brokers (λ _. true) k bs).0 ≡ ok
  unfolding write_brokers
  write_brokers-ok k [] = refl
  write_brokers-ok k (b ∷ bs) = write_brokers-ok (k + 1) bs

  -- A broker list written to its file is read back in order, with every address, if there are at
  -- most 50, each storable; every broker then has the type NONE and distance 0, whatever it had.
  pub broker_list_roundtrip :
      (bs : List Broker)
      → All (λ b. IsStorable b.address) bs
      → length bs ≤ 50
      → ((i : ℕ) → i < 50 → memory i ≡ true)
      → (text : Text) × (write_broker_list_to_file (opened (λ _. true)) bs ≡ (ok, some text))
        × (read_broker_list_from_file printf memory (opened text) ≡ (ok, map reread bs))
  broker_list_roundtrip bs v h room = (
    (write_brokers (λ _. true) 0 bs).1,
    unfold write_broker_list_to_file in ground (arith, write_brokers-ok 0 bs),
    unfold read_broker_list_from_file in read_brokers_written bs [] 0 0 v room (omega arith),
  )

  -- What `tspWriteLastServerToFile` writes, `tspReadLastServerFromFile` returns, if the server is
  -- storable on one line of at most 253 bytes and does not begin with `#`.
  pub last_server_roundtrip :
      (server : Text)
      → IsStorable server
      → length server ≤ 253
      → is_skipped server ≡ false
      → (text : Text) × (write_last_server_to_file (opened true) (some server) ≡ (ok, some text))
        × (read_last_server_from_file printf (opened text) ≡ (ok, some server))
  last_server_roundtrip server v short first = (
    server ++ (b'\n' ∷ []),
    unfold write_last_server_to_file in refl,
    unfold read_last_server_from_file fgets_lines in
        rw (
          fgets_lines-break [] server [] v.one_line (omega arith),
          is_skipped-append server (b'\n' ∷ []) v.present,
          first,
          chomp-break server v.one_line,
          printf.expand_plain server v.plain,
        ),
  )
