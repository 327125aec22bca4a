-- ===== src/Client/Connecting.antt =====
-- src/client/layer/client.rs: `connection_for`, which races the pool's checkout and a new connection.
use tlsurl.Base.{Bool, true, false, ◌&&◌, not, Option, none, some, List, [], ◌∷◌, if◌then◌else◌}
use tlsurl.Client.{ErrorKind, canceled, connect, Config}

-- How the race of `one_connection_for` between the pool's checkout and a new connection ends: which
-- side is first, and what each comes to. An error of the checkout says whether it is a cancellation.
pub data CheckedOut (C : Type 0) : Type 0 where
  checked_out : C → CheckedOut C
  checkout_failed : Bool → CheckedOut C

pub data Connected (C : Type 0) : Type 0 where
  connected : C → Connected C
  connect_failed : ErrorKind → Connected C

pub record Race (C : Type 0) : Type 0 where
  pub checkout_first : Bool
  pub checkout : CheckedOut C
  pub connecting : Connected C

pub data Found (C : Type 0) : Type 0 where
  found : C → Found C
  normal : ErrorKind → Found C
  checkout_is_closed : Found C

abbrev pub is_canceled : ErrorKind → Bool
is_canceled canceled = true
is_canceled _ = false

module _ {C : Type 0} where
  abbrev pub await_connect : Connected C → Found C
  await_connect (connected c) = found c
  await_connect (connect_failed kind) = normal kind

  abbrev pub await_checkout : Bool → CheckedOut C → Found C
  await_checkout is_ver_h2 (checked_out c) = found c
  await_checkout is_ver_h2 (checkout_failed stopped) =
      if is_ver_h2 && stopped then checkout_is_closed else normal connect

  abbrev pub checkout_won : CheckedOut C → Connected C → Found C
  checkout_won (checked_out c) connecting = found c
  checkout_won (checkout_failed stopped) connecting =
      if stopped then await_connect connecting else normal connect

  abbrev pub connect_won : Bool → Connected C → CheckedOut C → Found C
  connect_won is_ver_h2 (connected c) checkout = found c
  connect_won is_ver_h2 (connect_failed kind) checkout =
      if is_canceled kind then await_checkout is_ver_h2 checkout else normal kind

  -- The pool is enabled or not.
  unfoldable pub one_connection_for : Bool → Bool → Race C → Found C
  one_connection_for enabled is_ver_h2 race =
      if not enabled
      then await_connect race.connecting
      else if race.checkout_first
      then checkout_won race.checkout race.connecting
      else connect_won is_ver_h2 race.connecting race.checkout

  -- `none` while the last race is not over.
  unfoldable pub connection_for : Config → Bool → List (Race C) → Option (Found C)
  connection_for config enabled [] = none
  connection_for config enabled (race ∷ races) =
      elim (one_connection_for enabled config.is_ver_h2 race) [
        | found c ↦ some (found c)
        | normal kind ↦ some (normal kind)
        | checkout_is_closed ↦
            if not config.retry_canceled_requests
            then some (normal connect)
            else connection_for config enabled races
      ]
