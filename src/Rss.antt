-- ===== src/Rss.antt =====
-- crates/rtorrent/src/rss.rs: the rules that add feed items by themselves. The crate `regex` and the
-- Unicode `to_lowercase` are parameters, `f64` is the parameter `Floats`.
pub mod Episode
pub mod Quality
pub mod Match
pub mod Plan
pub mod Markers
pub mod Sound
pub mod Pool
pub mod Waits
pub mod Winners
pub mod Smart
pub mod Maps
pub mod Again
pub mod Best
mod Tests
use rstorrent.Base.{Text, ℤ, Bool, Option, List}
use rstorrent.Types.{Floats}

pub record Feed : Type 0 where
  pub id : Text
  pub name : Text
  pub url : Text
  pub enabled : Bool

pub record Rule : Type 0 where
  pub id : Text
  pub name : Text
  pub enabled : Bool
  pub feed_id : Text
  pub must_contain : Text
  pub must_not_contain : Text
  pub regex_match : Text
  pub season_range : Text
  pub episode_range : Text
  pub min_size_mb : ℤ
  pub max_size_mb : ℤ
  pub prefer_quality : Text
  pub smart_episode : Bool
  pub label : Text
  pub tags : List Text
  pub save_path : Text
  pub start : Bool
  pub top_of_queue : Bool
  pub poll_minutes : ℤ

pub record FeedItem : Type 0 where
  pub title : Text
  pub link : Text
  pub guid : Text
  pub pub_date : Text
  pub size : Option ℤ

-- What `Regex::new` makes of a pattern: a test of texts, or an error that is shown as a text.
pub data Compiled : Type 0 where
  compiled : (Text → Bool) → Compiled
  refused : Text → Compiled

pub record Outside : Type 1 where
  pub lower : Text → Text
  pub regex : Text → Compiled
  pub floats : Floats
