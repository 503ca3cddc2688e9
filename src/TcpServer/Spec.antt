-- ===== src/TcpServer/Spec.antt =====
-- What a server of src/server/tcpserver.cc promises: numbered connections, each open until it is
-- removed.
use Prim.Native.Nat.{ℕ, ◌+◌}
use tiny_http_server.Prelude.{List, [], ◌∷◌, ◌++◌, Option, none, some, if◌then◌else◌, ◌==◌}
use tiny_http_server.TcpServer.{Job, builds, destroys, Event, accepts, removes}

-- A connection: its number, from 0, and its socket.
pub record Open : Type 0 where
  pub index : ℕ
  pub sockfd : ℕ

pub record Spec : Type 0 where
  pub count : ℕ
  pub opened : List Open
  pub posted : List (Job Open)

abbrev pub nothing : Spec
nothing = record { count = 0; opened = []; posted = [] }

-- the list without the connection of a number; none where it holds none
unfoldable pub remove : ℕ → List Open → Option (List Open)
remove i [] = none
remove i (o ∷ os) =
    let rest = remove i os in
    if o.index == i then some os else elim rest [ none ↦ none | some os' ↦ some (o ∷ os') ]

abbrev pub accept : ℕ → Spec → Spec
accept sockfd a =
    let o : Open = record { index = a.count; sockfd = sockfd } in
    record { count = a.count + 1; opened = a.opened ++ o ∷ []; posted = a.posted ++ builds o ∷ [] }

-- what closing leaves, with what `remove` gave
abbrev pub closed : Open → Spec → Option (List Open) → Option Spec
closed o a none = none
closed o a (some os) = some (record a { opened = os; posted = a.posted ++ destroys o ∷ [] })

abbrev pub close : Open → Spec → Option Spec
close o a = closed o a (remove o.index a.opened)

abbrev pub spec_step : Event Open → Spec → Option Spec
spec_step (accepts sockfd) a = some (accept sockfd a)
spec_step (removes o) a = close o a

unfoldable pub spec_run : List (Event Open) → Spec → Option Spec
unfolding remove
spec_run [] a = some a
spec_run (e ∷ es) a = elim (spec_step e a) [ none ↦ none | some a' ↦ spec_run es a' ]
