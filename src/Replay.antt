-- ===== src/Replay.antt =====
-- The replay store of a fan-in wait, in crates/chanvoy-daemon/src/waitprims_fanin.rs: `FanInReplayStore`.
-- Its map of queues is an association list; a poisoned lock refuses a call, and changes nothing.
use chanvoy.Base.{
  List, [], ◌∷◌, ◌++◌, Option, none, some, Bool, true, false, ◌||◌, if◌then◌else◌, any, All, ◌≡◌,
  ◌≢◌, refl, arith, ◌⊎◌,
}
use chanvoy.Base.Maps.{insert, lookup, remove, lookup-insert, lookup-remove}
use chanvoy.Base.Texts.{Text, text_eq, text_beq, text_beq_iff}
use chanvoy.Message.{Message}

abbrev pub ReplayStore : Type 0
ReplayStore = List (Text × List Message)

abbrev pub or_default : Option (List Message) → List Message
or_default none = []
or_default (some queue) = queue

unfoldable pub peek : Text → ReplayStore → List Message
peek channel_id map = or_default (lookup channel_id map)

abbrev pub has_id : Text → List Message → Bool
has_id id queue = any (λ m. text_beq m.id id) queue

abbrev pub grown : Message → List Message → List Message
grown m queue = if has_id m.id queue then queue else queue ++ m ∷ []

unfoldable pub stash : Text → Message → ReplayStore → ReplayStore
stash channel_id m map = insert channel_id (grown m (peek channel_id map)) map

abbrev pub without : Text → List Message → List Message
without id [] = []
without id (m ∷ ms) = let rest = without id ms in if text_beq m.id id then rest else m ∷ rest

abbrev pub put_back : Text → List Message → ReplayStore → ReplayStore
put_back channel_id [] map = remove channel_id map
put_back channel_id (m ∷ ms) map = insert channel_id (m ∷ ms) map

abbrev pub consume_queue : Option (List Message) → Text → Text → ReplayStore → ReplayStore
consume_queue none channel_id post_id map = map
consume_queue (some queue) channel_id post_id map = put_back channel_id (without post_id queue) map

unfoldable pub consume : Text → Text → ReplayStore → ReplayStore
consume channel_id post_id map = consume_queue (lookup channel_id map) channel_id post_id map

-- One call; a poisoned lock does nothing.
pub data Call : Type 0 where
  stashed : Text → Message → Call
  consumed : Text → Text → Call

unfoldable pub calls : List Call → ReplayStore → ReplayStore
calls [] map = map
calls (stashed c m ∷ more) map = calls more (stash c m map)
calls (consumed c id ∷ more) map = calls more (consume c id map)

-- The call does not consume a post of a channel.
abbrev pub Keeps : Text → Text → Call → Type 0
Keeps c id (stashed other m) = Unit
Keeps c id (consumed other post_id) = (other ≢ c) ⊎ (post_id ≢ id)

has_id-append :
    (id : Text) (xs ys : List Message) → has_id id (xs ++ ys) ≡ (has_id id xs || has_id id ys)
has_id-append id [] ys = refl
has_id-append id (x ∷ xs) ys = ground (arith, has_id-append id xs ys)

has_id-without :
    (id other : Text) (ms : List Message)
    → has_id id (without other ms) ≡ (if text_beq other id then false else has_id id ms)
has_id-without id other [] = ground arith
has_id-without id other (m ∷ ms) = ground (
  arith,
  has_id-without id other ms,
  text_beq_iff m.id other,
  text_beq_iff m.id id,
  text_beq_iff other id,
)

peek-put_back :
    (c other : Text) (queue : List Message) (map : ReplayStore)
    → peek c (put_back other queue map) ≡ (if text_beq other c then queue else peek c map)
unfolding peek
peek-put_back c other [] map = ground (arith, lookup-remove other c map)
peek-put_back c other (m ∷ ms) map = ground (arith, lookup-insert other c (m ∷ ms) map)

peek-consume :
    (c other id : Text) (map : ReplayStore)
    → peek c (consume other id map)
      ≡ (if text_beq other c then without id (peek c map) else peek c map)
unfolding consume peek
peek-consume c other id map = by_queue (lookup other map) refl
  where
    by_queue :
        (o : Option (List Message))
        → lookup other map ≡ o
        → peek c (consume_queue o other id map)
          ≡ (if text_beq other c then without id (peek c map) else peek c map)
    by_queue none h = ground (arith, text_beq_iff other c, h)
    by_queue (some queue) h =
        ground (arith, text_beq_iff other c, peek-put_back c other (without id queue) map, h)

has_id-consume_other :
    (c id other post_id : Text) (map : ReplayStore)
    → (other ≢ c) ⊎ (post_id ≢ id)
    → has_id id (peek c map) ≡ true
    → has_id id (peek c (consume other post_id map)) ≡ true
has_id-consume_other c id other post_id map ne h = ground (
  arith,
  peek-consume c other post_id map,
  has_id-without id post_id (peek c map),
  text_beq_iff other c,
  text_beq_iff post_id id,
)

has_id-grown :
    (id : Text) (m : Message) (queue : List Message)
    → has_id id (grown m queue) ≡ (has_id id queue || text_beq m.id id)
has_id-grown id m queue = ground (arith, has_id-append id queue (m ∷ []), text_beq_iff m.id id)

peek-stash :
    (c other : Text) (m : Message) (map : ReplayStore)
    → peek c (stash other m map) ≡ (if text_beq other c then grown m (peek c map) else peek c map)
unfolding stash peek
peek-stash c other m map =
    ground (arith, lookup-insert other c (grown m (peek other map)) map, text_beq_iff other c)

has_id-stash :
    (c id other : Text) (m : Message) (map : ReplayStore)
    → has_id id (peek c map) ≡ true
    → has_id id (peek c (stash other m map)) ≡ true
has_id-stash c id other m map h =
    ground (arith, peek-stash c other m map, has_id-grown id m (peek c map))

stash-has_id :
    (c : Text) (m : Message) (map : ReplayStore) → has_id m.id (peek c (stash c m map)) ≡ true
stash-has_id c m map = ground (
  arith,
  peek-stash c c m map,
  has_id-grown m.id m (peek c map),
  text_beq_iff c c,
  text_beq_iff m.id m.id,
)

calls-has_id :
    (c id : Text) (cs : List Call) (map : ReplayStore)
    → All (Keeps c id) cs
    → has_id id (peek c map) ≡ true
    → has_id id (peek c (calls cs map)) ≡ true
unfolding calls
calls-has_id c id [] map k h = h
calls-has_id c id (stashed other m ∷ more) map k h =
    calls-has_id c id more (stash other m map) k.1 (has_id-stash c id other m map h)
calls-has_id c id (consumed other post_id ∷ more) map k h =
    calls-has_id c id more (consume other post_id map) k.1
      (has_id-consume_other c id other post_id map k.0 h)

-- A stashed post is found under its channel after any later calls that do not consume it there, and
-- is gone once it is consumed.
pub stashed_until_consumed :
    (c : Text) (m : Message) (cs : List Call) (map : ReplayStore)
    → All (Keeps c m.id) cs
    → (has_id m.id (peek c (calls cs (stash c m map))) ≡ true)
      × (has_id m.id (peek c (consume c m.id (calls cs (stash c m map)))) ≡ false)
stashed_until_consumed c m cs map k = (
  calls-has_id c m.id cs (stash c m map) k (stash-has_id c m map),
  ground (
    arith,
    peek-consume c c m.id (calls cs (stash c m map)),
    has_id-without m.id m.id (peek c (calls cs (stash c m map))),
    text_beq_iff c c,
    text_beq_iff m.id m.id,
  ),
)
