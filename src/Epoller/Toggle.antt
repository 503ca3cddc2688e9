-- ===== src/Epoller/Toggle.antt =====
-- Two changes in a row of the events of a channel (src/event/epoller.cc).
use Prim.Native.Nat.{ℕ}
use tiny_http_server.Prelude.{◌≡◌, true, refl, some}
use tiny_http_server.Prelude.Result.{fail, ◌>>=◌, assertion}
use tiny_http_server.Channel.{Channel, add, Change, change, is_none_event}
use tiny_http_server.Epoller.{Kernel, Epoller, find, update, update_channel, apply}

-- If a change leaves an added channel without events, each change after it fails an assertion: the
-- descriptor stays in the map, where the next update wants it not to be.
pub apply_twice :
    (kernel : Kernel) (first second : Change) (ptr : ℕ) (c : Channel) (p : Epoller kernel)
    → c.status ≡ add
    → find c.fd p.channels ≡ some ptr
    → is_none_event (change first c.events) ≡ true
    → (apply kernel first ptr c p >>= λ r. apply kernel second ptr r.0 r.1) ≡ fail assertion
unfolding apply update_channel update
apply_twice kernel first second ptr c p added known idle = rw (added, idle, known) refl
