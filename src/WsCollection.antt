-- ===== src/WsCollection.antt =====
-- The coordinator of one websocket execution, of crates/chanvoy-core/src/websocket_ownership.rs: it
-- joins the outer task and every child that this task registered, and then sends its receipt. An
-- event is what the work does, or one branch of the coordinator's `select!`. Children are numbers.
pub mod Effects
pub mod Joined
pub mod Ends
use chanvoy.Base.{
  ℕ, List, [], ◌∷◌, ◌++◌, Option, none, some, Result, ok, err, Bool, true, false, ◌&&◌, ◌||◌, not,
  ◌==◌, if◌then◌else◌, any,
}
use chanvoy.Base.Texts.{Text}

pub data WsCollectionError : Type 0 where
  outer_join_unconfirmed recovery_join_unconfirmed collector_unavailable : WsCollectionError

-- The texts that `failure` is called with; `recorded` is any other error.
pub data WsFailure : Type 0 where
  outer_execution_unconfirmed recovery_execution_unconfirmed registration_unavailable : WsFailure
  completion_unknown : WsFailure
  recorded : Text → WsFailure

pub record WsFinish : Type 0 where
  pub execution : Result WsFailure (Unit {0})
  pub collection : Result WsCollectionError (Unit {0})

-- `queue` is the channel of registrations, closed for senders once `closed`; its only sender is in the
-- `Execution` that the work owns, until `sender_dropped`. `children` are those that a collector joins.
pub record Coordinator : Type 0 where
  pub joined : Bool
  pub closed : Bool
  pub sender_dropped : Bool
  pub registrations_closed : Bool
  pub queue : List ℕ
  pub children : List ℕ
  pub collection : Result WsCollectionError (Unit {0})
  pub error : Option WsFailure

abbrev pub launch : Coordinator
launch = record {
  joined = false;
  closed = false;
  sender_dropped = false;
  registrations_closed = false;
  queue = [];
  children = [];
  collection = ok tt;
  error = none;
}

pub data Event : Type 0 where
  register : ℕ → Event
  drop_sender : Event
  record_error : Text → Event
  join_outer : (succeeded : Bool) → Event
  receive : Event
  join_child : (child : ℕ) (succeeded : Bool) → Event

-- `Operations::record` keeps the first error.
abbrev pub first_error : Option WsFailure → WsFailure → Option WsFailure
first_error none e = some e
first_error (some first) e = some first

abbrev pub first_collection :
    Result WsCollectionError (Unit {0}) → WsCollectionError → Result WsCollectionError (Unit {0})
first_collection (ok u) e = err e
first_collection (err first) e = err first

abbrev pub blame : WsFailure → WsCollectionError → Bool → Coordinator → Coordinator
blame why what true s = s
blame why what false s = record s {
  error = first_error s.error why;
  collection = first_collection s.collection what;
}

abbrev pub take_one : ℕ → List ℕ → List ℕ
take_one c [] = []
take_one c (x ∷ xs) = if x == c then xs else x ∷ take_one c xs

abbrev pub has : ℕ → List ℕ → Bool
has c xs = any (λ x. x == c) xs

abbrev pub recv : List ℕ → Coordinator → Option Coordinator
recv (c ∷ queue) s = some (record s { queue = queue; children = c ∷ s.children })
recv [] s =
    if s.closed || s.sender_dropped then some (record s { registrations_closed = true }) else none

-- The state after an event, or none where the event is not enabled. The work registers until it drops
-- its `Execution`, at any time before its outer task is joined, and at the latest when that task ends.
-- A clone of the operations may record an error at any time.
unfoldable pub after : Event → Coordinator → Option Coordinator
after (register c) s =
    if s.joined || s.sender_dropped
    then none
    else if s.closed
    then some (record s { error = first_error s.error registration_unavailable })
    else some (record s { queue = s.queue ++ (c ∷ []) })
after drop_sender s =
    if s.joined || s.sender_dropped then none else some (record s { sender_dropped = true })
after (record_error e) s = some (record s { error = first_error s.error (recorded e) })
after (join_outer succeeded) s =
    if s.joined
    then none
    else some
        (record (blame outer_execution_unconfirmed outer_join_unconfirmed succeeded
          (record s { joined = true; sender_dropped = true })) { closed = true })
after receive s = if s.registrations_closed then none else recv s.queue s
after (join_child c succeeded) s =
    if has c s.children
    then some (
        blame recovery_execution_unconfirmed recovery_join_unconfirmed succeeded
          (record s { children = take_one c s.children }))
    else none

abbrev pub none_left : List ℕ → Bool
none_left [] = true
none_left (c ∷ cs) = false

-- The condition at the head of the loop.
abbrev pub is_done : Coordinator → Bool
is_done s = s.joined && s.registrations_closed && none_left s.children

abbrev pub after_all : List Event → Option Coordinator → Option Coordinator
after_all es none = none
after_all [] (some s) = some s
after_all (e ∷ es) (some s) = after_all es (after e s)

abbrev pub execution_of : Option WsFailure → Result WsFailure (Unit {0})
execution_of none = ok tt
execution_of (some e) = err e

-- The receipt.
unfoldable pub finish : Coordinator → WsFinish
finish s = record { execution = execution_of s.error; collection = s.collection }

-- `ManagedWs::finish`, with the receipt, if the coordinator sent one.
unfoldable pub managed_finish : Option WsFinish → WsFinish
managed_finish (some receipt) = receipt
managed_finish none = record {
  execution = err completion_unknown;
  collection = err collector_unavailable;
}
