-- ===== src/Wait/Inputs.antt =====
-- What the turns of the monitored wait of crates/chanvoy-daemon/src/wait.rs are given.
use chanvoy.Base.{List, [], ◌∷◌, ◌++◌, Bool, true, false, ◌&&◌}
use chanvoy.Message.{Message}
use chanvoy.Wait.{DaemonEventPayloadInner}
use chanvoy.Wait.Push.{
  Fetched, page, broken, undrained_lagged, undrained_closed, Input, received, lagged, idle, closed,
  deadline_reached, is_inbound,
}
use chanvoy.Wait.Silence.{concat}

-- What an input delivers: events, the posts of a page, and whether it observes the channel.
abbrev pub end_events : Fetched → List DaemonEventPayloadInner
end_events (page events posts) = events
end_events (broken e) = []
end_events undrained_lagged = []
end_events undrained_closed = []

abbrev pub end_posts : Fetched → List Message
end_posts (page events posts) = posts
end_posts (broken e) = []
end_posts undrained_lagged = []
end_posts undrained_closed = []

abbrev pub is_page : Fetched → Bool
is_page (page events posts) = true
is_page (broken e) = false
is_page undrained_lagged = false
is_page undrained_closed = false

abbrev pub events_of : Input → List DaemonEventPayloadInner
events_of (received healthy e) = e ∷ []
events_of (lagged left during end) = (left ++ concat during) ++ end_events end
events_of (idle during end) = concat during ++ end_events end
events_of closed = []
events_of deadline_reached = []

abbrev pub posts_of : Input → List Message
posts_of (received healthy e) = []
posts_of (lagged left during end) = end_posts end
posts_of (idle during end) = end_posts end
posts_of closed = []
posts_of deadline_reached = []

abbrev pub observes : Input → Bool
observes (received healthy e) = is_inbound e && healthy
observes (lagged left during end) = is_page end
observes (idle during end) = is_page end
observes closed = false
observes deadline_reached = false

abbrev pub all_events : List Input → List DaemonEventPayloadInner
all_events [] = []
all_events (i ∷ more) = events_of i ++ all_events more
