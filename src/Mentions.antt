-- ===== src/Mentions.antt =====
-- The mention test of crates/chanvoy-core/src/lib.rs: `mentions_bot`. Texts are bytes, as the boundary
-- test of the source reads them.
use chanvoy.Base.{
  ℕ, zero, suc, ◌+◌, ◌-◌, [], ◌∷◌, none, some, Bool, true, false, ◌&&◌, ◌||◌, not, if◌then◌else◌,
  leb, ◌==◌, length,
}
use chanvoy.Base.Texts.{Text, strip_prefix, is_ascii_digit, is_ascii_lowercase}

-- `to_ascii_lowercase`.
abbrev pub to_lower : ℕ → ℕ
to_lower c = if leb b'A' c && leb c b'Z' then c + 32 else c

abbrev pub lowercase : Text → Text
lowercase [] = []
lowercase (c ∷ s) = to_lower c ∷ lowercase s

abbrev pub name_byte : ℕ → Bool
name_byte c =
    is_ascii_digit c || is_ascii_lowercase c || (leb b'A' c && leb c b'Z') || c == b'_' || c == b'-'

-- What follows a mention is not a byte of a name.
abbrev pub boundary_ok : Text → Bool
boundary_ok [] = true
boundary_ok (c ∷ s) = not (name_byte c)

-- The loop: the leftmost occurrence of the needle, and the search after it when it is followed by a
-- byte of a name; the number of bytes to pass over first is an argument.
unfoldable pub search : Text → ℕ → Text → Bool
search needle n [] = false
search needle (suc n) (c ∷ s) = search needle n s
search needle zero (c ∷ s) =
    let later = search needle zero s in
    let after = search needle (length needle - 1) s in
    elim (strip_prefix needle (c ∷ s)) [
      | none ↦ later
      | some rest ↦ if boundary_ok rest then true else after
    ]

unfoldable pub message_mentions_username : Text → Text → Bool
message_mentions_username message username =
    search (b'@' ∷ lowercase username) 0 (lowercase message)

unfoldable pub mentions_bot : Text → Text → Bool
mentions_bot bot_username body = message_mentions_username body bot_username
