-- ===== src/Epoller/Poll.antt =====
-- `poll` of src/event/epoller.cc, with the round of `loop` in src/event/eventloop.cc that calls it.
-- What `epoll_wait` returned is an argument.
use Prim.Native.Nat.{ℕ, ◌*◌}
use tiny_http_server.Prelude.{
  ◌≡◌, ◌≤◌, ◌<◌, ◌∙◌, refl, arith, ap, sym, Bool, true, false, List, [], ◌∷◌, ◌++◌, if◌then◌else◌,
  ◌==◌, ==_iff, leb, le→leb, length, map, All, append-nil, append_assoc, if_true, if_false,
  Bool-cases, inl, inr,
}
use tiny_http_server.Prelude.Result.{Result, ok, ◌>>◌, check, out_of_bounds, Returns}
use tiny_http_server.Channel.{Revents}

-- Channels with their events, or an error.
pub data Wait : Type 0 where
  ready : List (ℕ × Revents) → Wait
  refused : ℕ → Wait

-- `size` is that of `events_`; `revents` are those of the channels, each named by its address.
pub record Polling : Type 0 where
  pub size : ℕ
  pub active_channels : List ℕ
  pub revents : ℕ → Revents

-- `events_(EventListSize)`
abbrev pub begin : (ℕ → Revents) → Polling
begin revents = record { size = 16; active_channels = []; revents = revents }

abbrev pub set_revents : ℕ → Revents → Polling → Polling
set_revents ptr r s = record s { revents = λ p. if ptr == p then r else s.revents p }

unfoldable pub fill_active_channels : List (ℕ × Revents) → Polling → Polling
fill_active_channels [] s = s
fill_active_channels ((ptr, r) ∷ es) s =
    let s' = set_revents ptr r s in
    fill_active_channels es (record s' { active_channels = s'.active_channels ++ ptr ∷ [] })

abbrev pub is_positive : List (ℕ × Revents) → Bool
is_positive [] = false
is_positive (e ∷ es) = true

-- The events are read from `events_`, as far as it goes.
unfoldable pub poll : Wait → Polling → Result Polling
unfolding fill_active_channels
poll (refused errno) s = ok s
poll (ready es) s =
    if is_positive es
    then (do
      check (leb (length es) s.size) out_of_bounds
      let s' = fill_active_channels es s
      ok (if length es == s'.size then record s' { size = length es * 2 } else s'))
    else ok s

-- The beginning of a round of `loop`.
unfoldable pub poll_round : Wait → Polling → Result Polling
unfolding poll
poll_round w s = poll w (record s { active_channels = [] })

-- no channel is reported twice
abbrev pub IsDistinct : List (ℕ × Revents) → Type 0
IsDistinct [] = Unit
IsDistinct ((ptr, r) ∷ es) = All (λ e. (e.0 == ptr) ≡ false) es × IsDistinct es

-- the channel of an event, put behind the active ones
abbrev activate : ℕ → Revents → Polling → Polling
activate ptr r s =
    let s' = set_revents ptr r s in record s' { active_channels = s'.active_channels ++ ptr ∷ [] }

fill-active :
    (es : List (ℕ × Revents)) (s : Polling)
    → ((fill_active_channels es s).active_channels ≡ s.active_channels ++ map (λ e. e.0) es)
      × ((fill_active_channels es s).size ≡ s.size)
unfolding fill_active_channels
fill-active [] s = (sym (append-nil s.active_channels), refl)
fill-active ((ptr, r) ∷ es) s =
    let (active, size) = fill-active es (activate ptr r s) in
    (active ∙ append_assoc s.active_channels (ptr ∷ []) (map (λ e. e.0) es), size)

-- a channel that is not reported keeps its events
fill_kept :
    (p : ℕ) (es : List (ℕ × Revents)) (s : Polling)
    → All (λ e. (e.0 == p) ≡ false) es
    → (fill_active_channels es s).revents p ≡ s.revents p
unfolding fill_active_channels
fill_kept p [] s h = refl
fill_kept p ((ptr, r) ∷ es) s h = fill_kept p es (activate ptr r s) h.1 ∙ if_false _ _ _ h.0

fill_reports :
    (es : List (ℕ × Revents)) (s : Polling)
    → IsDistinct es
    → All (λ e. (fill_active_channels es s).revents e.0 ≡ e.1) es
unfolding fill_active_channels
fill_reports [] s h = tt
fill_reports ((ptr, r) ∷ es) s h = (
  fill_kept ptr es (activate ptr r s) h.0 ∙ if_true _ _ _ ((==_iff ptr ptr).1 refl),
  fill_reports es (activate ptr r s) h.1,
)

-- the size after a round that filled the vector, and after another
grown_full :
    (n size size' : ℕ)
    → size' ≡ size
    → (n == size') ≡ true
    → n * 2 ≡ (if n == size then size * 2 else size)
grown_full n size size' e full = ground arith

grown_part :
    (n size size' : ℕ)
    → size' ≡ size
    → (n == size') ≡ false
    → size' ≡ (if n == size then size * 2 else size)
grown_part n size size' e part = ground arith

-- In a round for which `epoll_wait` reports distinct channels, as many as `events_` has room for at
-- most, the active channels are those reported, in order, each with the events reported, every other
-- channel keeps its events, and `events_` is twice as large if it was full.
pub poll_reports :
    (es : List (ℕ × Revents)) (s : Polling)
    → 0 < s.size
    → length es ≤ s.size
    → IsDistinct es
    → Returns (poll_round (ready es) s) (λ s'.
      (s'.active_channels ≡ map (λ e. e.0) es)
      × All (λ e. s'.revents e.0 ≡ e.1) es
      × (s'.size ≡ (if length es == s.size then s.size * 2 else s.size)))
unfolding poll_round poll
poll_reports [] s some_room fits distinct =
    (record s { active_channels = [] }, refl, (refl, tt, ground arith))
poll_reports (e ∷ es) s some_room fits distinct =
    let s0 : Polling = record s { active_channels = [] } in
    let s' = fill_active_channels (e ∷ es) s0 in
    let (active, size) = fill-active (e ∷ es) s0 in
    let reports = fill_reports (e ∷ es) s0 distinct in
    let inside : leb (length (e ∷ es)) s.size ≡ true = le→leb (length (e ∷ es)) s.size fits in
    elim (Bool-cases (length (e ∷ es) == s'.size)) [
      | inl full ↦ (
        record s' { size = length (e ∷ es) * 2 },
        ap
              (λ b.
                check b out_of_bounds
                >> ok (
                    if length (e ∷ es) == s'.size
                    then record s' { size = length (e ∷ es) * 2 }
                    else s'))
              inside
            ∙ ap ok (if_true _ _ _ full),
        (active, reports, grown_full (length (e ∷ es)) s.size s'.size size full),
      )
      | inr part ↦ (
        s',
        ap
              (λ b.
                check b out_of_bounds
                >> ok (
                    if length (e ∷ es) == s'.size
                    then record s' { size = length (e ∷ es) * 2 }
                    else s'))
              inside
            ∙ ap ok (if_false _ _ _ part),
        (active, reports, grown_part (length (e ∷ es)) s.size s'.size size part),
      )
    ]
