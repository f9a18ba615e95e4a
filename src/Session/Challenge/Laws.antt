-- ===== src/Session/Challenge/Laws.antt =====
-- Bounds of the escaped user name.
use gogoc_android.Prelude.{ℕ, ◌+◌, ◌≤◌, ◌<◌, ◌≡◌, ◌↔◌, [], ◌∷◌, if◌then◌else◌, length, arith}
use gogoc_android.Cstring.{Text}
use gogoc_android.Session.Challenge.{needs_escape, escape_userid}

-- the bytes that the whole name needs
abbrev pub escaped_size : Text → ℕ
escaped_size [] = 0
escaped_size (c ∷ s) = if needs_escape c then 2 + escaped_size s else 1 + escaped_size s

escape_userid-bounds :
    (i : ℕ) (s : Text)
    → i ≤ 513
    → (i + length (escape_userid i s) ≤ 513)
      × (i + length (escape_userid i s) < 512 → length (escape_userid i s) ≡ escaped_size s)
      × (i + escaped_size s < 512 → i + length (escape_userid i s) < 512)
      × (512 ≤ i + escaped_size s → i ≤ 512 → 512 ≤ i + length (escape_userid i s))
unfolding escape_userid
escape_userid-bounds i [] h = ground arith
escape_userid-bounds i (c ∷ s) h =
    ground (arith, escape_userid-bounds (i + 1) s, escape_userid-bounds (i + 2) s)

-- The escaped user name and its final 0 stay inside `userid[512]` exactly when the name, with one
-- byte more for each quote and backslash, is shorter than 512 bytes; a longer one is written past the
-- end of the array, by two bytes at most.
pub escape_userid_fits :
    (userid : Text)
    → ((length (escape_userid 0 userid) < 512) ↔ (escaped_size userid < 512))
      × (length (escape_userid 0 userid) ≤ 513)
escape_userid_fits userid = ground (arith, escape_userid-bounds 0 userid (omega arith))
