-- ===== src/Coalesce.antt =====
-- The burst order and the fixed-window buffer of crates/chanvoy-daemon/src/wait_coalesce.rs. Times
-- are numbers; `Instant::checked_add` is an argument.
pub mod Burst
pub mod Buffer
pub mod Calls
use chanvoy.Base.{
  ℕ, List, [], ◌∷◌, ◌++◌, Option, none, some, Bool, true, false, not, if◌then◌else◌, length, leb,
  is_some, ◌==◌,
}
use chanvoy.Base.Texts.{Text}
use chanvoy.Base.Int.{ℤ}
use chanvoy.Message.{Message}
use chanvoy.Follow.{
  WaitFollowMode, armed, backlog, live, deadman, canceled, replaced, failed, Key, key_ltb,
  seen_before, coalesce_max_messages,
}

pub record CoalesceOrder (T : Type 0) : Type 0 where
  pub coalesce_create_at : T → ℤ
  pub coalesce_id : T → Text

instance abbrev pub message_order : CoalesceOrder Message
message_order = record { coalesce_create_at = λ m. m.create_at; coalesce_id = λ m. m.id }

abbrev mode_number : WaitFollowMode → ℕ
mode_number armed = 0
mode_number backlog = 1
mode_number live = 2
mode_number deadman = 3
mode_number canceled = 4
mode_number replaced = 5
mode_number failed = 6

abbrev pub same_mode : WaitFollowMode → WaitFollowMode → Bool
same_mode a b = mode_number a == mode_number b

module _ {T : Type 0} ⦃o : CoalesceOrder T⦄ where
  abbrev pub order_key : T → Key
  order_key x = (o.coalesce_create_at x, o.coalesce_id x)

  -- `sort_by` is stable: an item stays before the later ones with its key.
  abbrev pub place : T → List T → List T
  place x [] = x ∷ []
  place x (y ∷ ys) =
      let rest = place x ys in if key_ltb (order_key y) (order_key x) then y ∷ rest else x ∷ y ∷ ys

  abbrev pub sort_by_key : List T → List T
  sort_by_key [] = []
  sort_by_key (x ∷ xs) = place x (sort_by_key xs)

  -- `retain` with `seen.insert`.
  abbrev pub retain_new : List Text → List T → List T
  retain_new seen [] = []
  retain_new seen (x ∷ xs) =
      let old = seen_before (o.coalesce_id x) seen in
      let rest = retain_new (if old then seen else o.coalesce_id x ∷ seen) xs in
      if old then rest else x ∷ rest

  unfoldable pub order_coalesced : List T → List T
  order_coalesced items = retain_new [] (sort_by_key items)

pub record CoalesceFlush (T : Type 0) : Type 0 where
  pub mode : WaitFollowMode
  pub items : List T

pub record CoalesceBuffer (T : Type 0) : Type 0 where
  pub coalesce_ms : ℕ
  pub pending : List T
  pub mode : Option WaitFollowMode
  pub window_start : Option ℕ

abbrev add_window : (ℕ → ℕ → Option ℕ) → ℕ → Option ℕ → Option ℕ
add_window checked_add ms none = none
add_window checked_add ms (some start) = checked_add start ms

-- `unwrap_or(Live)`.
abbrev pub mode_or_live : Option WaitFollowMode → WaitFollowMode
mode_or_live none = live
mode_or_live (some mode) = mode

abbrev pub mode_differs : Option WaitFollowMode → WaitFollowMode → Bool
mode_differs none mode = false
mode_differs (some current) mode = not (same_mode current mode)

module _ {T : Type 0} where
  unfoldable pub new : ℕ → CoalesceBuffer T
  new coalesce_ms = record {
    coalesce_ms = coalesce_ms;
    pending = [];
    mode = none;
    window_start = none;
  }

  unfoldable pub deadline : (ℕ → ℕ → Option ℕ) → CoalesceBuffer T → Option ℕ
  deadline checked_add b = add_window checked_add b.coalesce_ms b.window_start

  unfoldable pub take : CoalesceBuffer T → Option (CoalesceFlush T) × CoalesceBuffer T
  take b = if length b.pending == 0 then (none, b) else (
    some (record { mode = mode_or_live b.mode; items = b.pending }),
    record b { pending = []; mode = none; window_start = none },
  )

  abbrev pub flush_list : Option (CoalesceFlush T) → List (CoalesceFlush T)
  flush_list none = []
  flush_list (some flush) = flush ∷ []

  -- `if condition { if let Some(flush) = self.take() { out.push(flush) } }`.
  abbrev pub take_when : Bool → CoalesceBuffer T → List (CoalesceFlush T) × CoalesceBuffer T
  take_when false b = ([], b)
  take_when true b = let (flush, c) = take b in (flush_list flush, c)

  abbrev pub open_window : ℕ → WaitFollowMode → CoalesceBuffer T → CoalesceBuffer T
  open_window now mode b =
      if length b.pending == 0 then record b { window_start = some now; mode = some mode } else b

  abbrev pub append_item : T → CoalesceBuffer T → CoalesceBuffer T
  append_item item b = record b { pending = b.pending ++ (item ∷ []) }

  unfoldable pub push :
      ℕ → WaitFollowMode → T → CoalesceBuffer T → List (CoalesceFlush T) × CoalesceBuffer T
  push now mode item b =
      let (first, c) = take_when (mode_differs b.mode mode) b in
      let d = append_item item (open_window now mode c) in
      let (second, e) = take_when (leb coalesce_max_messages (length d.pending)) d in
      (first ++ second, e)

  abbrev take_at : Option ℕ → ℕ → CoalesceBuffer T → Option (CoalesceFlush T) × CoalesceBuffer T
  take_at none now b = (none, b)
  take_at (some end) now b = if leb end now then take b else (none, b)

  unfoldable pub take_if_expired :
      (ℕ → ℕ → Option ℕ) → ℕ → CoalesceBuffer T → Option (CoalesceFlush T) × CoalesceBuffer T
  unfolding deadline
  take_if_expired checked_add now b = take_at (deadline checked_add b) now b
