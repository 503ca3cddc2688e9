-- ===== src/Epoller/Sync.antt =====
-- The agreement of the poller's map, the status of a channel and what the kernel knows of it
-- (src/event/epoller.cc).
use Prim.Native.Nat.{ℕ}
use tiny_http_server.Prelude.{
  ◌≡◌, ◌≢◌, ◌⊎◌, Bool, true, false, [], ◌∷◌, none, some, refl, arith, inl, inr, Bool-cases,
}
use tiny_http_server.Prelude.Result.{fail, Returns, assertion}
use tiny_http_server.Channel.{
  Events, Channel, PollTag, new, add, del, Change, change, is_none_event,
}
use tiny_http_server.Epoller.{
  Kernel, CtlOp, ctl_add, ctl_mod, ctl_del, Epoller, ChannelMap, find, erase, update, update_tag,
  update_channel, remove_tag, remove_channel, apply, remove,
}

-- what `epoll_ctl` is documented to do
pub record EpollLaws (kernel : Kernel) : Type 0 where
  pub added :
      (fd : ℕ) (e : Events) (st : kernel.State)
      → kernel.interest st fd ≡ none
      → kernel.interest (kernel.epoll_ctl ctl_add fd e st) fd ≡ some e
  pub modified :
      (fd : ℕ) (e e' : Events) (st : kernel.State)
      → kernel.interest st fd ≡ some e'
      → kernel.interest (kernel.epoll_ctl ctl_mod fd e st) fd ≡ some e
  pub deleted :
      (fd : ℕ) (e : Events) (st : kernel.State)
      → kernel.interest (kernel.epoll_ctl ctl_del fd e st) fd ≡ none
  pub other :
      (op : CtlOp) (fd fd' : ℕ) (e : Events) (st : kernel.State)
      → fd ≢ fd'
      → kernel.interest (kernel.epoll_ctl op fd e st) fd' ≡ kernel.interest st fd'

find-erase : (fd : ℕ) (m : ChannelMap) → find fd (erase fd m) ≡ none
unfolding find erase
find-erase fd [] = refl
find-erase fd ((k, ptr) ∷ m) = ground (arith, find-erase fd m)

find-erase_other : (fd fd' : ℕ) (m : ChannelMap) → fd ≢ fd' → find fd' (erase fd m) ≡ find fd' m
unfolding find erase
find-erase_other fd fd' [] h = refl
find-erase_other fd fd' ((k, ptr) ∷ m) h = ground (arith, find-erase_other fd fd' m h)

module _ (kernel : Kernel) (laws : EpollLaws kernel) where
  -- A new channel is unknown, an added one is in the map and watched for its events, and a deleted
  -- one is in the map, waits for nothing and is not watched.
  abbrev pub IsSyncedAt : PollTag → ℕ → Channel → Epoller kernel → Type 0
  IsSyncedAt new ptr c p = (find c.fd p.channels ≡ none) × (kernel.interest p.state c.fd ≡ none)
  IsSyncedAt add ptr c p =
      (find c.fd p.channels ≡ some ptr) × (kernel.interest p.state c.fd ≡ some c.events)
  IsSyncedAt del ptr c p =
      (find c.fd p.channels ≡ some ptr)
      × (kernel.interest p.state c.fd ≡ none)
      × (is_none_event c.events ≡ true)

  abbrev pub IsSynced : ℕ → Channel → Epoller kernel → Type 0
  IsSynced ptr c p = IsSyncedAt c.status ptr c p

  -- no other descriptor is touched
  pub record Keeps (fd : ℕ) (p p' : Epoller kernel) : Type 0 where
    pub channels : (fd' : ℕ) → fd ≢ fd' → find fd' p'.channels ≡ find fd' p.channels
    pub watched : (fd' : ℕ) → fd ≢ fd' → kernel.interest p'.state fd' ≡ kernel.interest p.state fd'

  update_tag_cases :
      (t : PollTag) (ptr : ℕ) (c : Channel) (e : Events) (added : Bool) (p : Epoller kernel)
      → IsSyncedAt t ptr c p
      → ((t ≡ del)
          × (update_tag kernel t ptr (record c { status = t; events = e; added_to_loop = added }) p
              ≡ fail assertion))
        ⊎ Returns
            (update_tag kernel t ptr (record c { status = t; events = e; added_to_loop = added }) p)
            (λ r. IsSynced ptr r.0 r.1 × (r.0.events ≡ e) × Keeps c.fd p r.1)
  unfolding update find
  update_tag_cases new ptr c e added p h = inr (
    (
      record c { status = add; events = e; added_to_loop = added },
      record {
        channels = (c.fd, ptr) ∷ p.channels;
        state = kernel.epoll_ctl ctl_add c.fd e p.state;
      },
    ),
    rw h.0 refl,
    (
      (ground arith, laws.added c.fd e p.state h.1),
      refl,
      record {
        channels = λ fd' other. ground arith;
        watched = λ fd' other. laws.other ctl_add c.fd fd' e p.state other;
      },
    ),
  )
  update_tag_cases del ptr c e added p h = inl (refl, rw h.0 refl)
  update_tag_cases add ptr c e added p h = elim (Bool-cases (is_none_event e)) [
    | inl none_left ↦ inr (
      (
        record c { status = del; events = e; added_to_loop = added },
        record p { state = kernel.epoll_ctl ctl_del c.fd e p.state },
      ),
      rw none_left refl,
      (
        (h.0, laws.deleted c.fd e p.state, none_left),
        refl,
        record {
          channels = λ fd' other. refl;
          watched = λ fd' other. laws.other ctl_del c.fd fd' e p.state other;
        },
      ),
    )
    | inr some_left ↦ inr (
      (
        record c { status = add; events = e; added_to_loop = added },
        record p { state = kernel.epoll_ctl ctl_mod c.fd e p.state },
      ),
      rw some_left refl,
      (
        (h.0, laws.modified c.fd e c.events p.state h.1),
        refl,
        record {
          channels = λ fd' other. refl;
          watched = λ fd' other. laws.other ctl_mod c.fd fd' e p.state other;
        },
      ),
    )
  ]

  -- A change of the events of a synced channel either fails an assertion, and then the channel had
  -- been deleted, or leaves the channel synced with its new events, and every other descriptor as it
  -- was.
  pub apply_cases :
      (ch : Change) (ptr : ℕ) (c : Channel) (p : Epoller kernel)
      → IsSynced ptr c p
      → ((c.status ≡ del) × (apply kernel ch ptr c p ≡ fail assertion))
        ⊎ Returns
            (apply kernel ch ptr c p)
            (λ r. IsSynced ptr r.0 r.1 × (r.0.events ≡ change ch c.events) × Keeps c.fd p r.1)
  unfolding apply update_channel
  apply_cases ch ptr c p h = update_tag_cases c.status ptr c (change ch c.events) true p h

  remove_tag-Synced :
      (t : PollTag) (ptr : ℕ) (c : Channel) (added : Bool) (p : Epoller kernel)
      → IsSyncedAt t ptr c p
      → t ≢ new
      → Returns
          (remove_tag kernel t (record c { status = t; added_to_loop = added }) p)
          (λ r. (r.0.status ≡ new) × IsSynced ptr r.0 r.1 × Keeps c.fd p r.1)
  unfolding update
  remove_tag-Synced new ptr c added p h old = absurd (old refl)
  remove_tag-Synced add ptr c added p h old = (
    _,
    refl,
    (
      refl,
      (find-erase c.fd p.channels, laws.deleted c.fd c.events p.state),
      record {
        channels = λ fd' other. find-erase_other c.fd fd' p.channels other;
        watched = λ fd' other. laws.other ctl_del c.fd fd' c.events p.state other;
      },
    ),
  )
  remove_tag-Synced del ptr c added p h old = (
    _,
    refl,
    (
      refl,
      (find-erase c.fd p.channels, h.1),
      record {
        channels = λ fd' other. find-erase_other c.fd fd' p.channels other;
        watched = λ fd' other. refl;
      },
    ),
  )

  -- Removing a synced channel that is not new and waits for nothing makes it new again, unknown to
  -- the map and the kernel, and leaves every other descriptor as it was.
  pub remove-IsSynced :
      (ptr : ℕ) (c : Channel) (p : Epoller kernel)
      → IsSynced ptr c p
      → c.status ≢ new
      → is_none_event c.events ≡ true
      → Returns
          (remove kernel c p)
          (λ r. (r.0.status ≡ new) × IsSynced ptr r.0 r.1 × Keeps c.fd p r.1)
  unfolding remove remove_channel
  remove-IsSynced ptr c p h old idle = rw idle (remove_tag-Synced c.status ptr c false p h old)
