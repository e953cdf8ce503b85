-- ===== src/ReadCursors/Keeps.antt =====
-- What every cursor map that the daemon holds or has stored is known to have, for the calls on the
-- read cursors.
use chanvoy.Base.{List, Option, none, some}
use chanvoy.Base.Actions.{◌>>=◌, ◌>>◌}
use chanvoy.ReadCursors.{
  AttentionState, Anchors, CombinedReadCursorTxn, Answer, CursorError, Daemon, Call, access, ready,
  extend, persist, store_attention_state, persist_combined_txn, clear_combined_txn,
  load_combined_txn, materialize_canonical, publish, StagedPollAck,
}
use chanvoy.ReadCursors.Calls.{
  set_live, set_inner, load_attention_state, load_persisted, apply_found, apply_pending_txn_inner,
  apply_pending_txn, extended, commit, commit_combined, persist_then_publish_attention_state, start,
}
use chanvoy.ReadCursors.Triples.{
  Triple, bind_value, then_rule, pure_rule, gets_rule, modify_rule, access_rule,
}

module _ (P : Anchors → Type 0) (Q : AttentionState → Type 0) where
  abbrev pub OnTxn : Option CombinedReadCursorTxn → Type 0
  OnTxn none = Unit
  OnTxn (some txn) = Q txn.attention × P txn.poll

  pub record Kept (d : Daemon) : Type 0 where
    pub inner : P d.inner
    pub live : Q d.live
    pub poll : P d.files.poll
    pub attention : Q d.files.attention
    pub txn : OnTxn d.files.txn

  abbrev kept_with :
      {d : Daemon}
      → P d.inner
      → Q d.live
      → P d.files.poll
      → Q d.files.attention
      → OnTxn d.files.txn
      → Kept d
  kept_with i l p a t = record { inner = i; live = l; poll = p; attention = a; txn = t }

  -- The call keeps what is known, and its result has a property.
  abbrev pub Keeps : {A : Type 0} → (A → Type 0) → Call A → Type 0
  Keeps R m = Triple Kept (λ a d. R a × Kept d) Kept m

  abbrev pub Any : {A : Type 0} → A → Type 0
  Any a = Unit

  pub bind-Keeps :
      {A B : Type 0} {R : A → Type 0} {S : B → Type 0} {m : Call A} {f : A → Call B}
      → Keeps R m
      → ((a : A) → R a → Keeps S (f a))
      → Keeps S (m >>= f)
  bind-Keeps h k = bind_value h k

  infixr 5 ◌⨾◌
  ◌⨾◌ :
      {B : Type 0} {S : B → Type 0} {m : Call (Unit {0})} {k : Call B}
      → Keeps Any m
      → Keeps S k
      → Keeps S (m >> k)
  h ⨾ k = then_rule h (record { run = λ d (p : Unit × Kept d). k.run d p.1 })

  pub then-Keeps :
      {B : Type 0} {S : B → Type 0} {m : Call (Unit {0})} {k : Call B}
      → Keeps Any m
      → Keeps S k
      → Keeps S (m >> k)
  then-Keeps h k = h ⨾ k

  pub again : {d : Daemon} {a : List Answer} → Kept d → Kept (record d { answers = a })
  again k = kept_with k.inner k.live k.poll k.attention k.txn

  access-Keeps :
      {write : Daemon → Daemon} {e : CursorError}
      → ((d : Daemon) → Kept d → Kept (write d))
      → Keeps Any (access write e)
  access-Keeps h = access_rule λ d a k. ((tt, h _ (again k)), (again k, h _ (again k)))

  ready-Keeps : (e : CursorError) → Keeps Any (ready e)
  ready-Keeps e = access-Keeps λ d k. k

  persist-Keeps : (map : Anchors) → P map → Keeps Any (persist map)
  unfolding persist
  persist-Keeps map p = access-Keeps λ d k. kept_with k.inner k.live p k.attention k.txn

  store-Keeps : (state : AttentionState) → Q state → Keeps Any (store_attention_state state)
  unfolding store_attention_state
  store-Keeps state q = access-Keeps λ d k. kept_with k.inner k.live k.poll q k.txn

  txn-Keeps :
      (txn : CombinedReadCursorTxn) → OnTxn (some txn) → Keeps Any (persist_combined_txn txn)
  unfolding persist_combined_txn
  txn-Keeps txn t = access-Keeps λ d k. kept_with k.inner k.live k.poll k.attention t

  clear-Keeps : Keeps Any clear_combined_txn
  unfolding clear_combined_txn
  clear-Keeps = access-Keeps λ d k. kept_with k.inner k.live k.poll k.attention tt

  load-Keeps : Keeps OnTxn load_combined_txn
  unfolding load_combined_txn
  load-Keeps = (ready-Keeps _) ⨾ gets_rule λ d k. (k.txn, k)

  materialize-Keeps :
      (state : AttentionState) (map : Anchors)
      → Q state
      → P map
      → Keeps Any (materialize_canonical state map)
  unfolding materialize_canonical
  materialize-Keeps state map q p = (persist-Keeps map p) ⨾ store-Keeps state q

  publish-Keeps : (map : Anchors) → P map → Keeps Any (publish map)
  unfolding publish
  publish-Keeps map p =
      (ready-Keeps _) ⨾ modify_rule λ d k. (tt, kept_with p k.live k.poll k.attention k.txn)

  set_live-Keeps : (state : AttentionState) → Q state → Keeps Any (set_live state)
  set_live-Keeps state q = modify_rule λ d k. (tt, kept_with k.inner q k.poll k.attention k.txn)

  set_inner-Keeps : (map : Anchors) → P map → Keeps Any (set_inner map)
  set_inner-Keeps map p = modify_rule λ d k. (tt, kept_with p k.live k.poll k.attention k.txn)

  apply_found-Keeps : (txn : Option CombinedReadCursorTxn) → OnTxn txn → Keeps Any (apply_found txn)
  apply_found-Keeps none t = pure_rule λ d k. (tt, k)
  apply_found-Keeps (some txn) t =
      (materialize-Keeps txn.attention txn.poll t.0 t.1)
      ⨾ (set_live-Keeps txn.attention t.0)
      ⨾ (publish-Keeps txn.poll t.1)
      ⨾ clear-Keeps
      ⨾ pure_rule λ d k. (tt, k)

  inner-Keeps : Keeps Any apply_pending_txn_inner
  unfolding apply_pending_txn_inner
  inner-Keeps = bind-Keeps load-Keeps λ txn t. apply_found-Keeps txn t

  pub apply-Keeps : Keeps Any apply_pending_txn
  unfolding apply_pending_txn
  apply-Keeps = (ready-Keeps _) ⨾ inner-Keeps

  extended-Keeps :
      (staged : StagedPollAck)
      → ((map : Anchors) → P map → P (extend map staged.anchors))
      → Keeps P (extended staged)
  extended-Keeps staged h = (ready-Keeps _) ⨾ gets_rule λ d k. (h d.inner k.inner, k)

  pub commit-Keeps :
      (staged : StagedPollAck)
      → ((map : Anchors) → P map → P (extend map staged.anchors))
      → Keeps Any (commit staged)
  unfolding commit
  commit-Keeps staged h =
      (ready-Keeps _)
      ⨾ bind-Keeps inner-Keeps λ _ _.
        bind-Keeps (extended-Keeps staged h) λ map p. (persist-Keeps map p) ⨾ publish-Keeps map p

  pub commit_combined-Keeps :
      (staged : StagedPollAck) (build : AttentionState → AttentionState)
      → ((map : Anchors) → P map → P (extend map staged.anchors))
      → ((state : AttentionState) → Q state → Q (build state))
      → Keeps Any (commit_combined staged build)
  unfolding commit_combined
  commit_combined-Keeps staged build h g =
      (ready-Keeps _)
      ⨾ bind-Keeps inner-Keeps λ _ _.
        bind-Keeps {R = Q} (gets_rule λ d k. (g d.live k.live, k)) λ state q.
          bind-Keeps (extended-Keeps staged h) λ map p.
            (txn-Keeps _ (q, p))
            ⨾ (materialize-Keeps state map q p)
            ⨾ (publish-Keeps map p)
            ⨾ (set_live-Keeps state q)
            ⨾ clear-Keeps

  pub write-Keeps :
      (build : AttentionState → AttentionState)
      → ((state : AttentionState) → Q state → Q (build state))
      → Keeps Any (persist_then_publish_attention_state build)
  unfolding persist_then_publish_attention_state
  write-Keeps build g =
      bind-Keeps {R = Q} (gets_rule λ d k. (g d.live k.live, k))
        λ state q. (store-Keeps state q) ⨾ set_live-Keeps state q

  pub start-Keeps : Keeps Any start
  unfolding start load_attention_state load_persisted
  start-Keeps = bind-Keeps (ready-Keeps _ ⨾ gets_rule λ d k. (k.attention, k)) λ state q.
      bind-Keeps (ready-Keeps _ ⨾ gets_rule λ d k. (k.poll, k))
        λ map p. set_live-Keeps state q ⨾ set_inner-Keeps map p ⨾ apply-Keeps
