-- ===== src/Examples/Runtime.antt =====
-- The runtime record and its publisher at concrete inputs.
use native.Mathlib.Decide.{ℕ_discrete}
use chanvoy.Base.{
  ℕ, ◌<◌, ◌+◌, List, [], ◌∷◌, ◌++◌, Option, none, some, ok, Bool, false, ◌||◌, ◌==◌, if◌then◌else◌,
  length, is_some, ◌≡◌, refl, ◌⊎◌,
}
use chanvoy.Base.Texts.{Text, lit, strip_prefix, text_beq, is_ascii_digit}
use chanvoy.Runtime.{
  RuntimePhase, starting, retiring, linux_birth, RuntimeProcess, RuntimeSocket, RuntimeBuildPin,
  validate_process, validate_inode, validate_build, socket_root_budget, platform,
}
use chanvoy.Runtime.Hex.{hex_encode, hex_decode, is_lower_hex, digit, nibble, decode_pairs}
use chanvoy.Runtime.Paths.{Platform, hashed, from_path, to_path, derive, child_socket_path}
use chanvoy.Runtime.Record.{
  RuntimeRecord, RuntimeRecord-discrete, encode, validate, validate_socket, next_revision,
}
use chanvoy.Runtime.Storage.{
  RecordSnapshot, RecordSnapshot-discrete, replaced_unconfirmed, same_snapshot, same_snapshot_iff,
  same_record, unchanged, read_record, publish_record, check_publish, confirm_publication,
}
use chanvoy.Runtime.Stage.{
  Process-discrete, Socket-discrete, stage, check_stage, finish, logical, same_process, same_socket,
}
use chanvoy.Runtime.Publisher.{
  Io, Publisher, for_current_child, fresh, retry_publication, flush, publish_running,
  publish_retiring,
}
use chanvoy.Runtime.Publisher.Invariant.{IsValid}
use chanvoy.Runtime.Publisher.Forward.{
  PublisherCall, running_call, retiring_call, retry_call, Trail, calls,
}
use chanvoy.Runtime.Publisher.History.{file_moves_forward, for_current_child-IsValid}
use chanvoy.Runtime.Publisher.Retry.{working, Completed, retry_completes}

abbrev rooted : Text → Bool
rooted [] = false
rooted (c ∷ t) = c == b'/'

abbrev contains : Text → Text → Bool
contains pattern [] = false
contains pattern (c ∷ t) = is_some (strip_prefix pattern (c ∷ t)) || contains pattern t

abbrev join_first : ℕ → Option Text → Option Text
join_first c (some r) = some (c ∷ r)
join_first c none = if c == b'/' then some [] else none

-- The part of a path before its last separator.
abbrev before_last : Text → Option Text
before_last [] = none
before_last (c ∷ t) = join_first c (before_last t)

abbrev pub unix : Platform
unix = record {
  is_absolute = rooted;
  has_parent_component = contains (lit "/..");
  parent = before_last;
  join = λ a b. a ++ (b'/' ∷ b);
  display = λ n. (n + b'0') ∷ [];
  sha256 = λ t. length t ∷ [];
}

abbrev pub to_json : RuntimeRecord → Option Text
to_json r = some (lit "record")

abbrev config : Text
config = lit "/etc/chanvoy"

abbrev pub name : Text
name = hex_encode ((length (hashed 7 config (lit "work"))) ∷ [])

abbrev pub child : RuntimeProcess
child = record {
  pid = 5;
  uid = 7;
  birth = linux_birth 100;
  executable = lit "chanvoy";
  pid_namespace = some (record { device = 1; inode = 2 });
  mount_namespace = some (record { device = 1; inode = 3 });
}

abbrev pub first_record : RuntimeRecord
first_record = record {
  schema_version = 1;
  namespace = name;
  instance_uuid = 11;
  revision = 0;
  phase = starting;
  uid = 7;
  config_root = hex_encode config;
  profile = lit "work";
  process = none;
  socket = none;
  build = none;
  ready = false;
}

abbrev pub begun : RecordSnapshot
begun = record { captured = first_record; fingerprint = 1; bytes = lit "record" }

abbrev pub at_work : Publisher
at_work = record {
  state = record {
    durable = begun;
    pending = some (record first_record { revision = 1; process = some child });
  };
  disk = some begun;
}

abbrev pub socket : RuntimeSocket
socket = record {
  path = hex_encode (lit "/run/5.sock");
  identity = record { device = 1; inode = 9 };
}

abbrev pub build : RuntimeBuildPin
build = record { version = lit "1"; commit = lit "unknown"; dirty = none }

abbrev unconfirmed : Io
unconfirmed = record (working 0) { replacement = replaced_unconfirmed 4 }

-- The child is named, a Running that is written and not confirmed is retried, and it retires.
abbrev early : List PublisherCall
early = retry_call (working 3) ∷ running_call unconfirmed socket build ∷ []

abbrev late : List PublisherCall
late = retry_call (working 5) ∷ retiring_call (working 6) ∷ []

started :
    for_current_child unix to_json 7 (working 2) 5 name child (fresh begun (some begun))
    ≡ (ok tt, at_work)
unfolding for_current_child stage check_stage unchanged read_record next_revision validate
    validate_socket validate_process validate_inode derive to_path hex_decode hex_encode
    is_lower_hex decode_pairs digit nibble text_beq is_ascii_digit
started = rw ((same_snapshot_iff begun begun).1 refl) refl

file_moves_forward_example :
    (a : RecordSnapshot) × (((calls unix to_json 7 early at_work).disk ≡ some a)
      × ((b : RecordSnapshot) × (((calls unix to_json 7 late
                (calls unix to_json 7 early at_work)).disk
              ≡ some b)
            × (Trail unix begun a
                × (Trail unix a b × ((a ≡ b) ⊎ (a.captured.revision < b.captured.revision)))))))
file_moves_forward_example =
    file_moves_forward unix to_json 7 (working 2) 5 name child begun (some begun) at_work early late
      started

pub at_work-IsValid : IsValid unix at_work
at_work-IsValid =
    (for_current_child-IsValid unix to_json 7 (working 2) 5 name child begun (some begun) at_work
      started).0

named_encodes :
    encode unix to_json (record first_record { revision = 1; process = some child })
    ≡ ok (lit "record")
unfolding encode validate validate_socket validate_process validate_inode derive to_path hex_decode
    hex_encode is_lower_hex decode_pairs digit nibble text_beq is_ascii_digit
named_encodes = refl

retry_completes_example :
    Completed
      (record first_record { revision = 1; process = some child })
      (retry_publication unix to_json 7 (working 3) at_work)
retry_completes_example =
    retry_completes unix to_json 7 at_work
      (record first_record { revision = 1; process = some child }) (lit "record") 3 at_work-IsValid
      refl named_encodes refl

-- What the file holds after the calls.
on_disk : Option RecordSnapshot → Option (ℕ × RuntimePhase)
on_disk none = none
on_disk (some d) = some (d.captured.revision, d.captured.phase)

ends_retiring :
    on_disk (calls unix to_json 7 late (calls unix to_json 7 early at_work)).disk
    ≡ some (3, retiring)
unfolding RuntimeRecord-discrete RecordSnapshot-discrete Process-discrete Socket-discrete
    publish_running publish_retiring retry_publication flush stage check_stage finish logical
    publish_record check_publish confirm_publication unchanged read_record next_revision encode
    validate validate_socket validate_process validate_build same_record same_snapshot same_process
    same_socket on_disk validate_inode derive to_path from_path child_socket_path socket_root_budget
    platform hex_decode hex_encode is_lower_hex decode_pairs digit nibble text_beq is_ascii_digit
    strip_prefix ℕ_discrete
ends_retiring = refl
