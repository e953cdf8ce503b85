-- ===== src/Runtime/Storage.antt =====
-- The record file of crates/chanvoy-core/src/runtime/authority.rs, as the content of one name. What
-- the operating system answers to each access is an argument: an error, or what it reports.
use native.Mathlib.Decide.{ℕ_discrete}
use chanvoy.Base.{
  ℕ, Option, none, some, Result, ok, err, Bool, true, false, ◌||◌, not, ◌==◌, refuse_if, ◌>>=◌,
  ◌>>◌, ◌≡◌, ◌↔◌, refl,
}
use chanvoy.Base.Texts.{Text, lit, text_beq}
use chanvoy.Runtime.{RuntimeError, invalid, changed, publication_uncertain}
use chanvoy.Runtime.Paths.{Platform}
use chanvoy.Runtime.Record.{RuntimeRecord, RuntimeRecord-discrete, encode, next_revision}

-- The identity, size and times of the file are numbers.
pub record RecordSnapshot : Type 0 where
  pub captured : RuntimeRecord
  pub fingerprint : ℕ
  pub bytes : Text

unfoldable pub RecordSnapshot-discrete : Discrete RecordSnapshot
RecordSnapshot-discrete = hlevel (ℕ_discrete, RuntimeRecord-discrete)

abbrev pub is_yes {ℓ} : {A : Type ℓ} → Dec A → Bool
is_yes (yes p) = true
is_yes (no p) = false

unfoldable pub same_record : RuntimeRecord → RuntimeRecord → Bool
same_record a b = is_yes (RuntimeRecord-discrete a b)

unfoldable pub same_snapshot : RecordSnapshot → RecordSnapshot → Bool
same_snapshot a b = is_yes (RecordSnapshot-discrete a b)

pub is_yes_iff {ℓ} : {A : Type ℓ} (d : Dec A) → (is_yes d ≡ true) ↔ A
is_yes_iff (yes p) = (λ h. p, λ a. refl)
is_yes_iff (no p) = (λ h. cc, λ a. absurd (p a))

pub same_record_iff : (a b : RuntimeRecord) → (same_record a b ≡ true) ↔ (a ≡ b)
unfolding same_record
same_record_iff a b = is_yes_iff (RuntimeRecord-discrete a b)

pub same_snapshot_iff : (a b : RecordSnapshot) → (same_snapshot a b ≡ true) ↔ (a ≡ b)
unfolding same_snapshot
same_snapshot_iff a b = is_yes_iff (RecordSnapshot-discrete a b)

abbrev pub Disk : Type 0
Disk = Option RecordSnapshot

-- An access that the system refuses, or lets through.
abbrev pub Access : Type 0
Access = Option RuntimeError

abbrev pub allowed : Access → Result RuntimeError (Unit {0})
allowed none = ok tt
allowed (some e) = err e

-- `read_record` gives the file as it stands, decoded when it was written.
unfoldable pub read_record : Access → Disk → Result RuntimeError Disk
read_record access disk = do allowed access; ok disk

abbrev pub holds_snapshot : Disk → RecordSnapshot → Bool
holds_snapshot none captured = false
holds_snapshot (some s) captured = same_snapshot s captured

unfoldable pub unchanged : Access → Disk → RecordSnapshot → Result RuntimeError Bool
unfolding read_record
unchanged access disk captured = do
  found ← read_record access disk
  ok (holds_snapshot found captured)

-- How the replacement of the file went: refused before the rename, done and then unconfirmed, or
-- done, with the fingerprint of the new file.
pub data Replacement : Type 0 where
  not_replaced : RuntimeError → Replacement
  replaced_unconfirmed : (fingerprint : ℕ) → Replacement
  replaced : (fingerprint : ℕ) → Replacement

module _ (os : Platform) (to_vec : RuntimeRecord → Option Text) where
  -- The checks of `publish_record` up to the replacement, which give the new bytes.
  unfoldable pub check_publish :
      ℕ → Access → Disk → RecordSnapshot → RuntimeRecord → Result RuntimeError Text
  unfolding unchanged
  check_publish uid access disk expected r = do
    allowed access
    refuse_if (not (r.uid == uid)) (invalid (lit "record UID"))
    bytes ← encode os to_vec r
    refuse_if
        (not (text_beq r.namespace expected.captured.namespace)
          || not (r.instance_uuid == expected.captured.instance_uuid))
        (invalid (lit "record writer epoch/revision"))
    revision ← next_revision expected.captured
    refuse_if
        (not (r.revision == revision)
          || not (r.uid == expected.captured.uid)
          || not (text_beq r.config_root expected.captured.config_root)
          || not (text_beq r.profile expected.captured.profile))
        (invalid (lit "record writer epoch/revision"))
    same ← unchanged access disk expected
    refuse_if (not same) (changed (lit "record revision/epoch"))
    ok bytes

  abbrev pub replace :
      Replacement → RuntimeRecord → Text → Disk → Result RuntimeError RecordSnapshot × Disk
  replace (not_replaced e) r bytes disk = (err e, disk)
  replace (replaced_unconfirmed fingerprint) r bytes disk = (
    err publication_uncertain,
    some (record { captured = r; fingerprint = fingerprint; bytes = bytes }),
  )
  replace (replaced fingerprint) r bytes disk = (
    ok (record { captured = r; fingerprint = fingerprint; bytes = bytes }),
    some (record { captured = r; fingerprint = fingerprint; bytes = bytes }),
  )

  abbrev pub replace_checked :
      Result RuntimeError Text
      → Replacement
      → RuntimeRecord
      → Disk
      → Result RuntimeError RecordSnapshot × Disk
  replace_checked (err e) how r disk = (err e, disk)
  replace_checked (ok bytes) how r disk = replace how r bytes disk

  -- `publish_record` with an expected snapshot.
  unfoldable pub publish_record :
      ℕ
      → Access
      → Replacement
      → Disk
      → RecordSnapshot
      → RuntimeRecord
      → Result RuntimeError RecordSnapshot × Disk
  publish_record uid access how disk expected r =
      replace_checked (check_publish uid access disk expected r) how r disk

-- `confirm_publication`, where `synced` is the answer of opening and syncing the file.
unfoldable pub confirm_publication :
    Access → Access → Disk → RecordSnapshot → Result RuntimeError (Unit {0})
unfolding unchanged
confirm_publication access synced disk captured = do
  same ← unchanged access disk captured
  refuse_if (not same) (changed (lit "publication reconciliation"))
  allowed synced
  again ← unchanged access disk captured
  refuse_if (not again) (changed (lit "published record changed"))
