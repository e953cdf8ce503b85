-- ===== src/Examples/Replay.antt =====
-- A lost match that is kept for a later wait, and retries that end at the deadline.
use chanvoy.Base.{List, [], ◌∷◌, none, some, err, true, false, ◌≡◌, ◌≢◌, refl, inl, arith}
use chanvoy.Base.Int.{pos}
use chanvoy.Base.Texts.{Text, lit, text_beq, text_beq_iff}
use chanvoy.Message.{Message}
use chanvoy.Replay.{
  has_id, peek, stash, consume, stashed, consumed, Call, calls, stashed_until_consumed,
}
use chanvoy.Wait.{observation_failing}
use chanvoy.Wait.Retry.{
  Round, retryable, deadline_error, retry_from, provider_retry, provider_retry_ends,
}

abbrev lost : Message
lost = record {
  id = lit "p1";
  user_id = lit "ann";
  username = lit "ann";
  message = lit "hello";
  create_at = pos 5;
  root_id = lit "p1";
  mention_user_ids = none;
}

abbrev later_calls : List Call
later_calls = stashed (lit "c1") lost ∷ consumed (lit "c2") (lit "p1") ∷ []

other_channel : lit "c2" ≢ lit "c1"
unfolding text_beq
other_channel e = let same : false ≡ true = (text_beq_iff (lit "c2") (lit "c1")).1 e in cc

stashed_until_consumed_example :
    (has_id (lit "p1") (peek (lit "c1") (calls later_calls (stash (lit "c1") lost []))) ≡ true)
    × (has_id (lit "p1") (
          peek
            (lit "c1")
            (consume (lit "c1") (lit "p1") (calls later_calls (stash (lit "c1") lost []))))
        ≡ false)
stashed_until_consumed_example =
    stashed_until_consumed (lit "c1") lost later_calls [] (tt, (inl other_channel, tt))

abbrev failed_twice : List (Round Text)
failed_twice =
    record { now = 100; answer = retryable; ended = 101 }
    ∷ record { now = 102; answer = retryable; ended = 103 }
    ∷ record { now = 104; answer = retryable; ended = 104 }
    ∷ []

retries_fail_at_deadline : provider_retry 102 failed_twice ≡ some (err observation_failing)
unfolding provider_retry retry_from deadline_error
retries_fail_at_deadline = refl

provider_retry_ends_example : provider_retry 102 failed_twice ≢ none
provider_retry_ends_example =
    provider_retry_ends 102 failed_twice 100
      (omega arith, (omega arith, (omega arith, (omega arith, (omega arith, (omega arith, tt))))))
      (omega arith)
