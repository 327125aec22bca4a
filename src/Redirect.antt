-- ===== src/Redirect.antt =====
-- src/redirect.rs and src/client/layer/redirect/policy.rs: the types of the redirect policy.
pub mod Origin
pub mod Referrer
pub mod Policy
pub mod Future
pub mod Requests
pub mod Steps
pub mod Chains
pub mod Calls
pub mod Decisions
pub mod Credentials
pub mod Schemes
pub mod Limits
pub mod Rewriting
pub mod Awaited
pub mod Histories
pub mod Follows
mod Tests
use tlsurl.Base.{ℕ, Bool, true, false, Option, none, some, Text, List, [], codes}
use tlsurl.Uri.{Uri}

-- The name of a future whose outcome comes later stands for the future.
pub data Action : Type 0 where
  follow stop : Action
  pending : ℕ → Action
  error : Text → Action

pub record Attempt (H : Type 0) : Type 0 where
  pub status : ℕ
  pub headers : H
  pub uri : Uri
  pub previous : List Uri

pub data PolicyKind (H : Type 0) : Type 0 where
  custom : (Attempt H → Action) → PolicyKind H
  limit : ℕ → PolicyKind H
  disabled : PolicyKind H

pub record HistoryEntry (H : Type 0) : Type 0 where
  pub status : ℕ
  pub uri : Uri
  pub previous : Uri
  pub headers : H

pub data Error : Type 0 where
  redirect_error : Text → Uri → Error
  inner : Text → Error
  uri_bad_scheme : Uri → Error
  redirect_bad_scheme : Uri → Error

pub data Result (A : Type 0) : Type 0 where
  ok : A → Result A
  err : Error → Result A

abbrev pub too_many_redirects : Text
too_many_redirects = codes "too many redirects"
