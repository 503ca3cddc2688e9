-- ===== src/Epoller.antt =====
-- `Epoller` of src/event/epoller.cc over src/event/pollbase.h: the channels of a loop and what the
-- kernel is told about them. The kernel is a parameter; a channel is named by a number, its address.
pub mod Sync
pub mod Toggle
pub mod Poll
mod Tests
use Prim.Native.Nat.{ℕ}
use tiny_http_server.Prelude.{
  Bool, true, false, List, [], ◌∷◌, ◌++◌, Option, none, some, if◌then◌else◌, ◌==◌,
}
use tiny_http_server.Prelude.Result.{Result, ok, fail, ◌>>=◌, ◌>>◌, check, assertion}
use tiny_http_server.Channel.{
  Events, Channel, PollTag, new, add, del, Change, change, is_none_event, none_event,
}

pub data CtlOp : Type 0 where
  ctl_add ctl_mod ctl_del : CtlOp

-- `epoll_ctl`; a call that it refuses is logged only.
pub record Kernel : Type 1 where
  pub State : Type 0
  pub epoll_ctl : CtlOp → ℕ → Events → State → State
  pub interest : State → ℕ → Option Events

-- `ChannelMap`: `find`, `insert` of a key that is missing, and `erase`.
abbrev pub ChannelMap : Type 0
ChannelMap = List (ℕ × ℕ)

unfoldable pub find : ℕ → ChannelMap → Option ℕ
find fd [] = none
find fd ((k, ptr) ∷ m) = if k == fd then some ptr else find fd m

unfoldable pub erase : ℕ → ChannelMap → ChannelMap
erase fd [] = []
erase fd ((k, ptr) ∷ m) = let rest = erase fd m in if k == fd then rest else (k, ptr) ∷ rest

abbrev pub is_end : Option ℕ → Bool
is_end none = true
is_end (some ptr) = false

-- `pItem->second == channel`; the end of the map must not be read.
abbrev pub is_channel : ℕ → Option ℕ → Bool
is_channel ptr none = false
is_channel ptr (some p) = p == ptr

module _ (kernel : Kernel) where
  pub record Epoller : Type 0 where
    pub channels : ChannelMap
    pub state : kernel.State

  unfoldable pub update : CtlOp → Channel → Epoller → Epoller
  update op c p = record p { state = kernel.epoll_ctl op c.fd c.events p.state }

  abbrev pub update_tag : PollTag → ℕ → Channel → Epoller → Result (Channel × Epoller)
  update_tag new ptr c p = do
    check (is_end (find c.fd p.channels)) assertion
    ok (
      record c { status = add },
      update ctl_add c (record p { channels = (c.fd, ptr) ∷ p.channels }),
    )
  update_tag del ptr c p = do
    check (is_end (find c.fd p.channels)) assertion
    check (is_channel ptr (find c.fd p.channels)) assertion
    ok (record c { status = add }, update ctl_add c p)
  update_tag add ptr c p =
      if is_none_event c.events
      then ok (record c { status = del }, update ctl_del c p)
      else ok (c, update ctl_mod c p)

  unfoldable pub update_channel : ℕ → Channel → Epoller → Result (Channel × Epoller)
  update_channel ptr c p = update_tag c.status ptr c p

  -- The epilogue of `remove_channel`, once its assertion has passed.
  abbrev pub remove_tag : PollTag → Channel → Epoller → Result (Channel × Epoller)
  remove_tag new c p = fail assertion
  remove_tag add c p =
      ok (
        record c { status = new },
        update ctl_del c (record p { channels = erase c.fd p.channels }),
      )
  remove_tag del c p = ok (record c { status = new }, record p { channels = erase c.fd p.channels })

  unfoldable pub remove_channel : Channel → Epoller → Result (Channel × Epoller)
  remove_channel c p = remove_tag c.status c p

  -- `enable_reading` and its kin of `Channel`: the change, and `update_` of the loop's poller.
  unfoldable pub apply : Change → ℕ → Channel → Epoller → Result (Channel × Epoller)
  apply ch ptr c p =
      update_channel ptr (record c { events = change ch c.events; added_to_loop = true }) p

  -- `Channel::remove`
  unfoldable pub remove : Channel → Epoller → Result (Channel × Epoller)
  remove c p =
      check (is_none_event c.events) assertion
      >> remove_channel (record c { added_to_loop = false }) p
