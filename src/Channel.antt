-- ===== src/Channel.antt =====
-- `Channel` of src/event/channel.h and src/event/channel.cc: what one file descriptor waits for, and
-- the callbacks that its events lead to.
use Prim.Native.Nat.{ℕ}
use tiny_http_server.Prelude.{
  Bool, true, false, List, [], ◌∷◌, ◌++◌, Option, none, some, if◌then◌else◌, ◌||◌, ◌&&◌, not,
}

-- `events_` is a union of `kReadEvent` and `kWriteEvent`.
pub record Events : Type 0 where
  pub reading : Bool
  pub writing : Bool

abbrev pub none_event : Events
none_event = record { reading = false; writing = false }

-- The bits of `revents_` that are looked at.
pub record Revents : Type 0 where
  pub pollin : Bool
  pub pollpri : Bool
  pub pollout : Bool
  pub pollerr : Bool
  pub pollhup : Bool
  pub pollnval : Bool
  pub pollrdhup : Bool

-- `POLL_TAG` of src/event/pollbase.h, which `status_` holds as an `int`.
pub data PollTag : Type 0 where
  new add del : PollTag

-- A callback that is not set is an empty `std::function`.
pub record Callbacks {ℓ} (F : Type ℓ) : Type ℓ where
  pub read_cb : Option F
  pub write_cb : Option F
  pub close_cb : Option F
  pub error_cb : Option F

pub record Channel : Type 0 where
  pub fd : ℕ
  pub events : Events
  pub status : PollTag
  pub tied : Bool
  pub added_to_loop : Bool

-- The constructor.
abbrev pub make : ℕ → Channel
make fd = record { fd = fd; events = none_event; status = new; tied = false; added_to_loop = false }

unfoldable pub is_none_event : Events → Bool
is_none_event e = not (e.reading || e.writing)

-- What `enable_reading` and its kin do to `events_` before `update_`.
pub data Change : Type 0 where
  enable_reading disable_reading enable_writing disable_writing disable_all : Change

abbrev pub change : Change → Events → Events
change enable_reading e = record e { reading = true }
change disable_reading e = record e { reading = false }
change enable_writing e = record e { writing = true }
change disable_writing e = record e { writing = false }
change disable_all e = none_event

abbrev pub called {ℓ} : {F : Type ℓ} → Bool → Option F → List F
called false cb = []
called true none = []
called true (some f) = f ∷ []

-- `handle_event_guard_`: the callbacks in the order in which they are called. None of them sets
-- `revents_`.
unfoldable pub handle_event_guard {ℓ} : {F : Type ℓ} → Callbacks F → Revents → List F
handle_event_guard cbs r =
    called (r.pollhup && not r.pollin) cbs.close_cb
    ++ (called (r.pollerr || r.pollnval) cbs.error_cb
        ++ (called (r.pollin || (r.pollpri || r.pollrdhup)) cbs.read_cb
            ++ called r.pollout cbs.write_cb))

-- `handle_event`: a channel that is tied calls nothing once its owner is gone.
unfoldable pub handle_event {ℓ} : {F : Type ℓ} → Channel → Bool → Callbacks F → Revents → List F
handle_event c owner_alive cbs r =
    if c.tied && not owner_alive then [] else handle_event_guard cbs r

unfoldable pub tie : Channel → Channel
tie c = record c { tied = true }
