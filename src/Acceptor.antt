-- ===== src/Acceptor.antt =====
-- `Acceptor` of src/event/acceptor.h and src/event/acceptor.cc, with `accept` and `setnonblocking` of
-- src/server/socketserver.cc. The kernel is a parameter; a descriptor of -1 is none.
pub mod Spare
mod Tests
use Prim.Native.Nat.{ℕ}
use tiny_http_server.Prelude.{
  Bool, true, false, List, [], ◌∷◌, ◌++◌, Option, none, some, if◌then◌else◌, ◌==◌,
}

-- `F_GETFL`, and `F_SETFL` with flags to which `O_NONBLOCK` is added.
pub data Command : Type 0 where
  get_flags : Command
  set_nonblock : Option ℕ → Command

-- Each call returns none where C returns -1, and then sets `errno`.
pub record Kernel : Type 1 where
  pub State : Type 0
  pub errno : State → ℕ
  pub accept : State → Option ℕ × State
  pub fcntl : Command → Option ℕ → State → Option ℕ × State
  pub close : Option ℕ → State → State
  pub open_null : State → Option ℕ × State

abbrev pub ebadf : ℕ
ebadf = 9

abbrev pub emfile : ℕ
emfile = 24

-- `has_callback` says that `new_conn_callback_` is set, and `accepted` lists what it was called with.
pub record Acceptor : Type 0 where
  pub idle_fd : Option ℕ
  pub has_callback : Bool
  pub accepted : List ℕ

module _ (kernel : Kernel) where
  abbrev pub setnonblocking : Option ℕ → kernel.State → kernel.State
  setnonblocking fd s =
      let r = kernel.fcntl get_flags fd s in (kernel.fcntl (set_nonblock r.0) fd r.1).1

  -- `SocketServer::accept` with an address: `errno` is read behind `setnonblocking`, and what is read
  -- is put back.
  unfoldable pub accept : kernel.State → Option ℕ × kernel.State
  accept s = let r = kernel.accept s in (r.0, setnonblocking r.0 r.1)

  -- The calls where descriptors have run out.
  abbrev pub use_idle : Acceptor → kernel.State → Acceptor × kernel.State
  use_idle a s =
      let r = kernel.accept (kernel.close a.idle_fd s) in
      let r' = kernel.open_null (kernel.close r.0 r.1) in (record a { idle_fd = r'.0 }, r'.1)

  abbrev pub answer : Acceptor → Option ℕ × kernel.State → Acceptor × kernel.State
  answer a (none, s) = if kernel.errno s == emfile then use_idle a s else (a, s)
  answer a (some fd, s) =
      if a.has_callback
      then (record a { accepted = a.accepted ++ fd ∷ [] }, s)
      else (a, kernel.close (some fd) s)

  unfoldable pub handle_read : Acceptor → kernel.State → Acceptor × kernel.State
  unfolding accept
  handle_read a s = answer a (accept s)
