-- ===== src/Examples/Waits.antt =====
-- Waits of two agents on two channels, played step by step.
use chanvoy.Base.{ℕ, ◌≡◌, ◌≢◌, refl, Option, none, some, ok, false, List, [], ◌∷◌, nat_eq}
use chanvoy.Base.Int.{pos}
use chanvoy.Base.Texts.{Text, lit, text_beq, strip_prefix, is_ascii_hexdigit, text_eq}
use chanvoy.Base.Maps.{lookup, insert, remove}
use chanvoy.Admission.{new}
use chanvoy.Slots.{WaitSlotView, decide_acquire, can_install_replacement, wait_id_well_formed}
use chanvoy.Registry.{Registry, WaitLease, channel, for_instance}
use chanvoy.Registry.Acquire.{Request, Handoff, acquire_prepare, acquire_install, cancel_cell}
use chanvoy.Registry.Guard.{complete_guard}
use chanvoy.Registry.Protocol.{
  Task, idle, begun, waiting, confirmed, failed, holding, Move, prepare, cancel_old, confirm,
  install, drop_failed, complete, World, move, assign, task, Reach, here, next, start,
}
use chanvoy.Registry.Protocol.Invariant.{Owns}
use chanvoy.Registry.Protocol.Exclusion.{
  one_waiter_per_channel, replacement_waits_for_cleanup, holder-Owns,
}

-- The next move of a task that goes on with its work.
abbrev drive : Request → Text → (x : Task) → Move x
drive q id idle = prepare q (pos 5) id
drive q id (begun q' h) = cancel_old q' h
drive q id (waiting q' h) = confirm q' h
drive q id (confirmed q' h) = install q' h
drive q id (failed q' h) = drop_failed q' h
drive q id (holding l) = complete l false

abbrev play : World → ℕ → Request → Text → World
play w t q id = record {
  registry = (move (drive q id (w.tasks t)) w.registry).0;
  tasks = assign w.tasks t (move (drive q id (w.tasks t)) w.registry).1;
}

abbrev plays : World → List (ℕ × Request × Text) → World
plays w [] = w
plays w ((t, q, id) ∷ rest) = plays (play w t q id) rest

plays-Reach :
    (v w : World) (script : List (ℕ × Request × Text)) → Reach v w → Reach v (plays w script)
plays-Reach v w [] r = r
plays-Reach v w ((t, q, id) ∷ rest) r =
    plays-Reach v (play w t q id) rest (next r (task t (drive q id (w.tasks t))))

abbrev id_a : Text
id_a = lit "wait_aaaaaaaaaaaaaaaaaaaaaaaaaaaaaaaa"

abbrev id_b : Text
id_b = lit "wait_bbbbbbbbbbbbbbbbbbbbbbbbbbbbbbbb"

abbrev id_c : Text
id_c = lit "wait_cccccccccccccccccccccccccccccccc"

abbrev brief : Option Text → Request
brief old = record {
  channel_id = lit "ch-1";
  team = lit "org";
  channel_name = lit "brief";
  replace_wait_id = old;
  kind = channel;
}

abbrev ops : Request
ops = record {
  channel_id = lit "ch-2";
  team = lit "org";
  channel_name = lit "ops";
  replace_wait_id = none;
  kind = channel;
}

abbrev brief_lease : WaitLease
brief_lease = record {
  channel_id = lit "ch-1";
  wait_id = id_a;
  generation = 1;
  replaced_wait_id = none;
  cell = 0;
}

abbrev ops_lease : WaitLease
ops_lease = record {
  channel_id = lit "ch-2";
  wait_id = id_b;
  generation = 2;
  replaced_wait_id = none;
  cell = 1;
}

-- Task 0 waits on ch-1 and task 1 on ch-2.
abbrev both : List (ℕ × Request × Text)
both = (0, brief none, id_a) ∷ (1, ops, id_b) ∷ []

-- Task 2 replaces the wait of task 0, which completes; task 2 sees the acknowledgement.
abbrev replaced : List (ℕ × Request × Text)
replaced =
    (0, brief none, id_a)
    ∷ (1, ops, id_b)
    ∷ (2, brief (some id_a), id_c)
    ∷ (2, ops, id_c)
    ∷ (0, ops, id_c)
    ∷ (2, ops, id_c)
    ∷ []

both-Reach : Reach (start 7) (plays (start 7) both)
both-Reach = plays-Reach (start 7) (start 7) both here

replaced-Reach : Reach (start 7) (plays (start 7) replaced)
replaced-Reach = plays-Reach (start 7) (start 7) replaced here

brief_held : (plays (start 7) both).tasks 0 ≡ holding brief_lease
unfolding move acquire_prepare decide_acquire for_instance new lookup insert text_beq
brief_held = refl

ops_held : (plays (start 7) both).tasks 1 ≡ holding ops_lease
unfolding move acquire_prepare decide_acquire for_instance new lookup insert text_beq
ops_held = refl

one_waiter_per_channel_example : ◌≡◌ {A = ℕ} 0 0
one_waiter_per_channel_example =
    one_waiter_per_channel 7 0 0 (plays (start 7) both) brief_lease brief_lease both-Reach
      brief_held brief_held refl

holder-Owns_example : Owns (plays (start 7) both).registry ops_lease
holder-Owns_example = holder-Owns 7 1 (plays (start 7) both) ops_lease both-Reach ops_held

abbrev handoff : Handoff
handoff = record {
  old_wait_id = id_a;
  old_generation = 1;
  new_wait_id = id_c;
  new_generation = 3;
  started_at_ms = pos 5;
  cell = 0;
}

brief_confirmed : (plays (start 7) replaced).tasks 2 ≡ confirmed (brief (some id_a)) handoff
unfolding move acquire_prepare decide_acquire for_instance new lookup insert text_beq
    wait_id_well_formed strip_prefix is_ascii_hexdigit cancel_cell complete_guard remove
brief_confirmed = refl

ops_still_held : (plays (start 7) replaced).tasks 1 ≡ holding ops_lease
unfolding move acquire_prepare decide_acquire for_instance new lookup insert text_beq
    wait_id_well_formed strip_prefix is_ascii_hexdigit cancel_cell complete_guard remove
ops_still_held = refl

abbrev new_lease : WaitLease
new_lease = record {
  channel_id = lit "ch-1";
  wait_id = id_c;
  generation = 3;
  replaced_wait_id = some id_a;
  cell = 2;
}

abbrev after_install : Registry
after_install = (acquire_install (plays (start 7) replaced).registry (brief (some id_a)) handoff).1

brief_installed :
    acquire_install (plays (start 7) replaced).registry (brief (some id_a)) handoff
    ≡ (ok new_lease, after_install)
unfolding move acquire_prepare decide_acquire for_instance new lookup insert text_beq
    wait_id_well_formed strip_prefix is_ascii_hexdigit cancel_cell complete_guard remove
    acquire_install can_install_replacement
brief_installed = refl

replacement_waits_for_cleanup_example : ops_lease.channel_id ≢ lit "ch-1"
replacement_waits_for_cleanup_example =
    replacement_waits_for_cleanup 7 2 1 (plays (start 7) replaced) (brief (some id_a)) handoff
      new_lease ops_lease after_install replaced-Reach brief_confirmed brief_installed
      ops_still_held

abbrev held_view : WaitSlotView
held_view = record { wait_id = id_a; generation = 3; started_at_ms = pos 1000; replacing = false }
