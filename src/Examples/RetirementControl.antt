-- ===== src/Examples/RetirementControl.antt =====
-- A retirement that is not published at first, and is continued.
use native.Mathlib.Decide.{ℕ_discrete}
use chanvoy.Base.{List, [], ◌∷◌, some, ok, true, false, ◌≡◌, refl, subst}
use chanvoy.Base.Texts.{lit, strip_prefix, text_beq, is_ascii_digit}
use chanvoy.Admission
use chanvoy.Admission.Bounds.{reserve_retiring}
use chanvoy.Admission.Handles.{request_permit}
use chanvoy.Registry.{Registry, for_instance}
use chanvoy.Registry.Arena.{arena_step, permit, retired}
use chanvoy.Runtime.{
  changed, running, retiring, validate_process, validate_inode, validate_build, socket_root_budget,
  platform,
}
use chanvoy.Runtime.Hex.{hex_encode, hex_decode, is_lower_hex, digit, nibble, decode_pairs}
use chanvoy.Runtime.Paths.{from_path, to_path, derive, child_socket_path}
use chanvoy.Runtime.Record.{
  RuntimeRecord, RuntimeRecord-discrete, encode, validate, validate_socket, next_revision,
}
use chanvoy.Runtime.Storage.{
  RecordSnapshot, RecordSnapshot-discrete, not_replaced, same_snapshot, same_record, unchanged,
  read_record, publish_record, check_publish, confirm_publication,
}
use chanvoy.Runtime.Stage.{
  PublicationView, Process-discrete, Socket-discrete, stage, check_stage, finish, inspect, logical,
  same_process, same_socket,
}
use chanvoy.Runtime.Publisher.{
  Io, Publisher, retry_publication, flush, publish_running, publish_retiring, inspect_publication,
}
use chanvoy.Runtime.Publisher.Invariant.{IsValid}
use chanvoy.Runtime.Publisher.Forward.{
  PublisherCall, running_call, retiring_call, retry_call, here, calls, calls-Trail,
}
use chanvoy.Runtime.Publisher.Retry.{working}
use chanvoy.RetirementControl.{
  Control, ControlDocument, Params, continue_same_epoch, attempt, Setting, same_identity,
  same_build, Build-discrete,
}
use chanvoy.RetirementControl.Answers.{Answer}
use chanvoy.RetirementControl.Outcomes.{attempt-Answer}
use chanvoy.RetirementControl.Continue.{working_setting, Continues, Matches, continue_completes}
use chanvoy.Examples.Runtime.{
  unix, to_json, child, first_record, socket, build, begun, at_work, at_work-IsValid,
}

abbrev failing : Io
failing = record (working 0) { replacement = not_replaced (changed (lit "disk")) }

abbrev asked : List PublisherCall
asked = retry_call (working 3) ∷ running_call (working 4) socket build ∷ retiring_call failing ∷ []

abbrev running_record : RuntimeRecord
running_record = record first_record {
  revision = 2;
  phase = running;
  process = some child;
  socket = some socket;
  build = some build;
  ready = true;
}

abbrev retiring_record : RuntimeRecord
retiring_record = record running_record { revision = 3; phase = retiring; ready = false }

abbrev on_file : RecordSnapshot
on_file = record { captured = running_record; fingerprint = 4; bytes = lit "record" }

abbrev half_retired : Publisher
half_retired = record {
  state = record { durable = on_file; pending = some retiring_record };
  disk = some on_file;
}

asked_gives : calls unix to_json 7 asked at_work ≡ half_retired
unfolding RuntimeRecord-discrete RecordSnapshot-discrete Process-discrete Socket-discrete
    publish_running publish_retiring retry_publication flush stage check_stage finish logical
    publish_record check_publish confirm_publication unchanged read_record next_revision encode
    validate validate_socket validate_process validate_build same_record same_snapshot same_process
    same_socket validate_inode derive to_path from_path child_socket_path socket_root_budget
    platform hex_decode hex_encode is_lower_hex decode_pairs digit nibble text_beq is_ascii_digit
    strip_prefix ℕ_discrete
asked_gives = refl

half_retired-IsValid : IsValid unix half_retired
half_retired-IsValid =
    subst (IsValid unix) asked_gives
      (calls-Trail unix to_json 7 asked at_work begun begun at_work-IsValid refl here).1.1.1

abbrev arena : Registry
arena = retired (for_instance 11)

abbrev control : Control
control = record { registry = arena; anchor = running_record; publisher = half_retired }

abbrev params : Params
params = record {
  schema_version = 1;
  kind = lit "retire";
  action = continue_same_epoch;
  target = record {
    namespace = running_record.namespace;
    instance_uuid = 11;
    record_revision = 2;
    process = child;
  };
  caller_generation = build;
}

abbrev request : ControlDocument
request = record { is_retire_request = true; params = some params }

abbrev view : PublicationView
view = record { observed = running_record; logical = retiring_record; confirmed = false }

-- Another task asks for a permit and is refused.
permit_kept :
    (r : Registry)
    → r.admission.phase ≡ Admission.retiring
    → (arena_step permit r).admission.phase ≡ Admission.retiring
unfolding arena_step request_permit
permit_kept r h = rw (reserve_retiring r.admission h) h

abbrev busy_setting : Setting
busy_setting = working_setting 9 (arena_step permit) (arena_step permit) (arena_step permit)

control-Matches : Matches control (λ r. true) params view
unfolding same_identity same_process same_socket same_build text_beq Process-discrete
    Socket-discrete Build-discrete ℕ_discrete hex_encode digit
control-Matches = record {
  same_target = refl;
  same_revision = refl;
  same_generation = refl;
  native = refl;
}

control_seen : (inspect_publication unix to_json 7 (working 9) half_retired).0 ≡ ok view
unfolding inspect_publication inspect read_record same_snapshot same_record RecordSnapshot-discrete
    RuntimeRecord-discrete ℕ_discrete logical hex_encode
control_seen = refl

retiring_encodes : encode unix to_json retiring_record ≡ ok (lit "record")
unfolding encode validate validate_socket validate_process validate_build validate_inode derive
    to_path from_path child_socket_path socket_root_budget platform hex_decode hex_encode
    is_lower_hex decode_pairs digit nibble text_beq is_ascii_digit strip_prefix
retiring_encodes = refl

continue_completes_example :
    Continues retiring_record (attempt unix to_json 7 busy_setting (λ r. true) request control)
continue_completes_example =
    continue_completes unix to_json 7 9 (arena_step permit) (arena_step permit) (arena_step permit)
      permit_kept permit_kept control (λ r. true) request params retiring_record (lit "record") view
      half_retired-IsValid refl refl retiring_encodes refl refl refl refl refl control_seen
      control-Matches

attempt-Answer_example :
    Answer busy_setting control (attempt unix to_json 7 busy_setting (λ r. true) request control)
attempt-Answer_example =
    attempt-Answer unix to_json 7 busy_setting permit_kept control (λ r. true) request
