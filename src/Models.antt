-- ===== src/Models.antt =====
-- The JSON documents that the client exchanges with the backend: the structures of
-- backend/internal/models (poll.go, user.go), as frontend/src/services/api.js receives them.
use poll.Prelude.{ℕ, String, Bool, List}

-- The exact value of a JavaScript number that is not negative.
pub record Number : Type 0 where
  pub numerator : ℕ
  pub denominator : ℕ

-- `models.Option`
pub record PollOption : Type 0 where
  pub id : String
  pub text : String
  pub votes : ℕ
  pub percentage : Number

-- `models.Poll`, without the dates; identifiers are written in hexadecimal, as in the documents.
pub record Poll : Type 0 where
  pub id : String
  pub title : String
  pub description : String
  pub creator_id : String
  pub options : List PollOption
  pub is_active : Bool
  pub total_votes : ℕ

-- `models.LivePollResult`, without `viewers`, which the client does not read
pub record LivePollResult : Type 0 where
  pub poll_id : String
  pub title : String
  pub is_active : Bool
  pub total_votes : ℕ
  pub options : List PollOption

-- The `user` of `models.AuthResponse`, and the document of `GET /api/auth/me`.
pub record User : Type 0 where
  pub id : String
  pub username : String
  pub email : String

-- `models.AuthResponse`
pub record AuthResponse : Type 0 where
  pub token : String
  pub user : User
