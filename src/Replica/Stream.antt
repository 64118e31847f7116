-- ===== src/Replica/Stream.antt =====
-- A client of a stream of internal/httpapi/sse.go: it keeps each envelope, and its cursor is that of
-- the last cursor event.
pub mod Pages
pub mod Follows
use ulsync_server.Prelude.{ℕ, List, [], ◌∷◌}
use ulsync_server.HttpApi.Sse.{Frame, envelope, cursor, ping}
use ulsync_server.Replica.{Client, put}

unfoldable pub take_frames : List Frame → Client → Client
unfolding put
take_frames [] c = c
take_frames (envelope p ∷ fs) c = take_frames fs (record c { copy = put p c.copy })
take_frames (cursor next now ∷ fs) c = take_frames fs (record c { cursor = next })
take_frames (ping ∷ fs) c = take_frames fs c
