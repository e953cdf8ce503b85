-- ===== src/Delivery.antt =====
-- The delivery of a channel follow, in crates/chanvoy-daemon/src/follow_delivery.rs: `ChannelDelivery`
-- with its stop cause, its gate and its writer. What the transport does is an argument; a time is a
-- number, and a canceled session is a flag with the id that replaced it.

pub mod Steps
pub mod Onward
pub mod Final
pub mod Producer
pub mod Unarmed
pub mod Armed
use chanvoy.Base.{
  ℕ, List, [], ◌∷◌, Option, none, some, Result, ok, err, Bool, true, false, ◌&&◌, ◌||◌, not,
  if◌then◌else◌, leb, is_none, is_some,
}
use chanvoy.Base.Texts.{Text, is_empty}

pub data StopCause : Type 0 where
  deadline canceled replaced transport : StopCause

pub data Gate : Type 0 where
  closed open_ failed_ : Gate

pub record Session : Type 0 where
  pub wait_id : Text
  pub is_cancelled : Bool
  pub replaced_by_id : Text

pub record ChannelDelivery : Type 0 where
  pub published_deadline : Option ℕ
  pub published_session : Option Session
  pub gate : Gate
  pub latched : Option StopCause
  pub client_gone : Bool
  pub failed : Bool
  pub admission_stopped : Bool
  pub armed_committed : Bool

unfoldable pub new : Bool → ChannelDelivery
new client_gone = record {
  published_deadline = none;
  published_session = none;
  gate = closed;
  latched = none;
  client_gone = client_gone;
  failed = false;
  admission_stopped = false;
  armed_committed = false;
}

-- A second publication panics, inside the lock of the value, which stays as it is.
unfoldable pub publish_deadline : ℕ → ChannelDelivery → ChannelDelivery
publish_deadline at d =
    if is_none d.published_deadline then record d { published_deadline = some at } else d

unfoldable pub publish_session : Session → ChannelDelivery → ChannelDelivery
publish_session s d =
    if is_none d.published_session then record d { published_session = some s } else d

abbrev pub or_insert : Option StopCause → StopCause → StopCause
or_insert none c = c
or_insert (some current) c = current

unfoldable pub latch : StopCause → ChannelDelivery → StopCause × ChannelDelivery
latch c d = (or_insert d.latched c, record d { latched = some (or_insert d.latched c) })

abbrev pub session_cause : Option Session → Option StopCause
session_cause none = none
session_cause (some s) =
    if s.is_cancelled then some (if is_empty s.replaced_by_id then canceled else replaced) else none

abbrev pub deadline_passed : ℕ → Option ℕ → Bool
deadline_passed now none = false
deadline_passed now (some at) = leb at now

abbrev pub found_cause : ℕ → ChannelDelivery → Option StopCause
found_cause now d = elim (session_cause d.published_session) [
  | some c ↦ some c
  | none ↦
      if d.client_gone
      then some canceled
      else (if deadline_passed now d.published_deadline then some deadline else none)
]

abbrev pub latch_found : Option StopCause → ChannelDelivery → Option StopCause × ChannelDelivery
latch_found none d = (none, d)
latch_found (some c) d = let (kept, d') = latch c d in (some kept, d')

abbrev pub latched_or :
    Option StopCause → Option StopCause → ChannelDelivery → Option StopCause × ChannelDelivery
latched_or (some c) found d = (some c, d)
latched_or none found d = latch_found found d

unfoldable pub cause : ℕ → ChannelDelivery → Option StopCause × ChannelDelivery
cause now d = if d.failed then (some transport, d) else latched_or d.latched (found_cause now d) d

unfoldable pub client_disconnected : ChannelDelivery → ChannelDelivery
client_disconnected d = record d { client_gone = true }

unfoldable pub poison : ChannelDelivery → ChannelDelivery
poison d = record d { failed = true; gate = failed_ }

unfoldable pub close_gate : ChannelDelivery → ChannelDelivery
close_gate d = record d { gate = failed_ }

-- `open_gate` up to its test, and the write of the gate when the test lets it through.
unfoldable pub open_gate : ChannelDelivery → Bool × ChannelDelivery
open_gate d = (not d.failed, record d { armed_committed = true })

unfoldable pub send_open : ChannelDelivery → ChannelDelivery
send_open d = record d { gate = open_ }

abbrev pub stopped_by :
    Option StopCause → ChannelDelivery → Option (Result StopCause (Unit {0})) × ChannelDelivery
stopped_by none d = (none, d)
stopped_by (some c) d = (some (err c), record d { admission_stopped = true })

abbrev pub admitted_unless :
    Option StopCause → ChannelDelivery → Option (Result StopCause (Unit {0})) × ChannelDelivery
admitted_unless none d = (some (ok tt), d)
admitted_unless (some c) d = (some (err c), record d { admission_stopped = true })

abbrev pub admit_at :
    Gate → ℕ → ChannelDelivery → Option (Result StopCause (Unit {0})) × ChannelDelivery
admit_at open_ now d = let (c, d') = cause now d in admitted_unless c d'
admit_at failed_ now d = (some (err transport), d)
admit_at closed now d = let (c, d') = cause now d in stopped_by c d'

-- One poll of `admit`: none while it waits.
unfoldable pub admit : ℕ → ChannelDelivery → Option (Result StopCause (Unit {0})) × ChannelDelivery
admit now d = admit_at d.gate now d

pub data WriteError : Type 0 where
  transport_unusable context_unavailable write_failed read_failed peek_failed : WriteError

-- What the `select!` of `write` takes first: the write, a stop at a time, or the reader.
pub data Selected : Type 0 where
  write_done : Bool → Selected
  stopped_at : ℕ → Selected
  line_read line_failed : Selected

pub data Peek : Type 0 where
  eof other_bytes pending peek_error : Peek

abbrev pub ready_only : Bool → Result WriteError (Unit {0})
ready_only true = ok tt
ready_only false = err write_failed

abbrev pub selected :
    Selected → Bool → ChannelDelivery → Result WriteError (Unit {0}) × ChannelDelivery
selected (write_done done) ready d = (ready_only done, d)
selected (stopped_at now) ready d = (ready_only ready, (cause now d).1)
selected line_read ready d = (ready_only ready, client_disconnected d)
selected line_failed ready d = (err read_failed, d)

abbrev pub peeked :
    Peek
    → Result WriteError (Unit {0}) × ChannelDelivery
    → Result WriteError (Unit {0}) × ChannelDelivery
peeked k (err e, d) = (err e, d)
peeked eof (ok u, d) = (ok tt, client_disconnected d)
peeked other_bytes (ok u, d) = (ok tt, d)
peeked pending (ok u, d) = (ok tt, d)
peeked peek_error (ok u, d) = (err peek_failed, d)

abbrev pub poison_on_error :
    Result WriteError (Unit {0}) × ChannelDelivery → Result WriteError (Unit {0}) × ChannelDelivery
poison_on_error (ok u, d) = (ok tt, d)
poison_on_error (err e, d) = (err e, poison d)

abbrev pub write_by :
    Option StopCause
    → Selected
    → Bool
    → ChannelDelivery
    → Result WriteError (Unit {0}) × ChannelDelivery
write_by (some c) s ready d = (ready_only ready, d)
write_by none s ready d =
    if is_none d.published_deadline then (ready_only ready, d) else selected s ready d

-- `write` of a record, or of the response when `completion` holds. `ready` says whether one more poll
-- of the write would complete it.
unfoldable pub write :
    Bool
    → ℕ
    → Selected
    → Bool
    → Peek
    → ChannelDelivery
    → Result WriteError (Unit {0}) × ChannelDelivery
write completion now s ready k d =
    let (c, d') = cause now d in
    let written = poison_on_error (peeked k (write_by c s ready d')) in
    if d.failed
    then (err transport_unusable, d)
    else (if not completion && (is_none d.published_deadline || is_none d.published_session)
        then (err context_unavailable, poison d)
        else written)

pub data RecordError : Type 0 where
  in_write : WriteError → RecordError
  encode_failed ack_unavailable : RecordError

abbrev pub acked :
    Bool
    → Result WriteError (Unit {0}) × ChannelDelivery
    → Result RecordError (Unit {0}) × ChannelDelivery
acked true (ok u, d) = (ok tt, d)
acked false (ok u, d) = (err ack_unavailable, poison d)
acked alive (err e, d) = (err (in_write e), d)

-- `encoded` says whether the record can be written as JSON, `alive` whether its producer still takes
-- the acknowledgement.
unfoldable pub write_record :
    Bool
    → Bool
    → ℕ
    → Selected
    → Bool
    → Peek
    → ChannelDelivery
    → Result RecordError (Unit {0}) × ChannelDelivery
write_record encoded alive now s ready k d =
    if encoded then acked alive (write false now s ready k d) else (err encode_failed, poison d)

unfoldable pub write_response :
    Bool
    → ℕ
    → Selected
    → Bool
    → Peek
    → ChannelDelivery
    → Result RecordError (Unit {0}) × ChannelDelivery
write_response encoded now s ready k d =
    if encoded then acked true (write true now s ready k d) else (err encode_failed, poison d)
