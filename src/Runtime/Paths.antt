-- ===== src/Runtime/Paths.antt =====
-- `PathBytes` and `Namespace` of crates/chanvoy-core/src/runtime/identity.rs. The operations of
-- `std::path`, of formatting and the hash are those of `Platform`.
use chanvoy.Base.{
  ℕ, ◌/◌, ◌%◌, [], ◌∷◌, ◌++◌, Option, Result, ok, Bool, ◌||◌, not, ltb, ◌==◌, any, length,
  refuse_if, ok_or, ◌>>=◌, ◌>>◌,
}
use chanvoy.Base.Texts.{Text, lit, is_empty}
use chanvoy.Runtime.{RuntimeError, invalid, panicked, NativePlatform, socket_root_budget}
use chanvoy.Runtime.Hex.{hex_encode, hex_decode}

pub record Platform : Type 0 where
  pub is_absolute : Text → Bool
  pub has_parent_component : Text → Bool
  pub parent : Text → Option Text
  pub join : Text → Text → Text
  pub display : ℕ → Text
  pub sha256 : Text → Text

abbrev pub max_path : ℕ
max_path = 4096

module _ (os : Platform) where
  -- `PathBytes::from_path`: the value is the hexadecimal text of the path.
  unfoldable pub from_path : Text → Result RuntimeError Text
  from_path path = do
    refuse_if
        (is_empty path
          || ltb max_path (length path)
          || any (λ b. b == 0) path
          || not (os.is_absolute path))
        (invalid (lit "absolute bounded OS path required"))
    refuse_if (os.has_parent_component path) (invalid (lit "parent traversal in runtime path"))
    ok (hex_encode path)

-- A text that is not hexadecimal panics, as the `expect` of the source does.
unfoldable pub to_path : Text → Result RuntimeError Text
to_path hex = ok_or (hex_decode hex) panicked

-- `to_be_bytes` of a `u32`, and of a `u64`.
abbrev pub be_4 : ℕ → Text
be_4 n = (n / 16777216 % 256) ∷ (n / 65536 % 256) ∷ (n / 256 % 256) ∷ (n % 256) ∷ []

abbrev pub be_8 : ℕ → Text
be_8 n = be_4 (n / 4294967296) ++ be_4 n

-- One length-delimited part of the hashed text.
abbrev pub part : Text → Text
part p = be_8 (length p) ++ p

abbrev pub hash_prefix : Text
hash_prefix = lit "chanvoy-runtime-namespace-v1" ++ (0 ∷ [])

abbrev pub hashed : ℕ → Text → Text → Text
hashed uid config profile = hash_prefix ++ (part (be_4 uid) ++ (part config ++ part profile))

module _ (os : Platform) where
  unfoldable pub derive : ℕ → Text → Text → Result RuntimeError Text
  unfolding to_path
  derive uid config_root profile = do
    refuse_if (is_empty profile || any (λ b. b == 0) profile)
        (invalid (lit "loaded profile name required"))
    config ← to_path config_root
    ok (hex_encode (os.sha256 (hashed uid config profile)))

  unfoldable pub child_socket_path : Text → ℕ → NativePlatform → Result RuntimeError Text
  child_socket_path root pid platform = do
    checked ← from_path os root
    refuse_if (ltb (socket_root_budget platform) (length root))
        (invalid (lit "socket root exceeds worst-case byte budget"))
    from_path os (os.join root (os.display pid ++ lit ".sock"))
