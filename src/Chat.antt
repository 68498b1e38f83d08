-- ===== src/Chat.antt =====
-- The chat playground (`chatPlayground`) of the page script: what its parts share.
pub mod Models
pub mod Poll
pub mod Stream
pub mod Params
pub mod Store
pub mod Panels
pub mod Submit
pub mod Session
pub mod Thread
pub mod Refs
use mikrollm.Base.{Option, Bool, ℕ, List}
use mikrollm.Base.Text.{Text}

-- The values of `#gen-mode`.
pub data Mode : Type 0 where
  chat image video : Mode

pub data Role : Type 0 where
  user assistant : Role

-- A message of a thread; empty texts stand for missing fields, `none` for a missing picture or film.
pub record Message : Type 0 where
  pub role : Role
  pub content : Text
  pub think : Text
  pub picture : Option Text
  pub film : Option Text
  pub had_image : Bool
  pub pending : Bool
