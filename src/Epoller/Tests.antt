-- ===== src/Epoller/Tests.antt =====
-- A kernel that keeps the interest of each descriptor as a function.
use Prim.Native.Nat.{ℕ}
use tiny_http_server.Prelude.{
  ◌≡◌, ◌⊎◌, true, false, refl, none, some, [], ◌∷◌, Option, if◌then◌else◌, ◌==◌, arith,
}
use tiny_http_server.Prelude.Result.{Returns, fail, ◌>>=◌, assertion}
use tiny_http_server.Channel.{
  Events, Channel, add, del, new, enable_reading, disable_all, is_none_event, make,
}
use tiny_http_server.Epoller.{Kernel, CtlOp, ctl_add, ctl_mod, ctl_del, Epoller, find, apply}
use tiny_http_server.Epoller.Sync.{EpollLaws, IsSynced, Keeps, apply_cases}
use tiny_http_server.Epoller.Toggle.{apply_twice}

abbrev told : CtlOp → Events → Option Events
told ctl_add e = some e
told ctl_mod e = some e
told ctl_del e = none

abbrev kernel : Kernel
kernel = record {
  State = ℕ → Option Events;
  epoll_ctl = λ op fd e st. λ fd'. if fd' == fd then told op e else st fd';
  interest = λ st fd. st fd;
}

laws : EpollLaws kernel
laws = record {
  added = λ fd e st h. ground arith;
  modified = λ fd e e' st h. ground arith;
  deleted = λ fd e st. ground arith;
  other = λ op fd fd' e st h. ground arith;
}

abbrev empty : Epoller kernel
empty = record { channels = []; state = λ fd. none }

abbrev reading : Events
reading = record { reading = true; writing = false }

abbrev known : Epoller kernel
known = record { channels = (7, 70) ∷ []; state = λ fd. if fd == 7 then some reading else none }

abbrev listening : Channel
listening = record (make 7) { status = add; events = reading }

apply_cases_example :
    ((new ≡ del) × (apply kernel enable_reading 70 (make 7) empty ≡ fail assertion))
    ⊎ Returns (apply kernel enable_reading 70 (make 7) empty) (λ r.
      IsSynced kernel laws 70 r.0 r.1 × (r.0.events ≡ reading) × Keeps kernel laws 7 empty r.1)
unfolding find
apply_cases_example = apply_cases kernel laws enable_reading 70 (make 7) empty (refl, refl)

apply_twice_example :
    (apply kernel disable_all 70 listening known >>= λ r. apply kernel enable_reading 70 r.0 r.1)
    ≡ fail assertion
unfolding find is_none_event
apply_twice_example =
    apply_twice kernel disable_all enable_reading 70 listening known refl refl refl
