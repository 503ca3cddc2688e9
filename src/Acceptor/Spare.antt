-- ===== src/Acceptor/Spare.antt =====
-- The descriptor that src/event/acceptor.cc keeps for the time when descriptors have run out.
use tiny_http_server.Prelude.{◌≡◌, ◌∙◌, ap, none, if_false, ◌==◌, false}
use tiny_http_server.Acceptor.{
  Kernel, Command, get_flags, set_nonblock, ebadf, emfile, Acceptor, setnonblocking, accept, answer,
  handle_read,
}

-- What `fcntl` is documented to do with a descriptor that is not open, such as -1.
abbrev pub RefusesBad : Kernel → Type 0
RefusesBad kernel =
    (op : Command) (s : kernel.State) → kernel.errno (kernel.fcntl op none s).1 ≡ ebadf

-- Where `::accept` fails, whatever its error is, and `fcntl` on -1 sets `errno` to EBADF, `handle_read_`
-- leaves the acceptor as it is and makes no call after those of `fcntl`: the spare descriptor is not
-- used, not even when descriptors have run out.
pub spare_unused :
    (kernel : Kernel) (a : Acceptor) (s : kernel.State)
    → RefusesBad kernel
    → (kernel.accept s).0 ≡ none
    → handle_read kernel a s ≡ (a, setnonblocking kernel none (kernel.accept s).1)
unfolding handle_read accept
spare_unused kernel a s refuses fails =
    let s1 = (kernel.accept s).1 in
    let r = kernel.fcntl get_flags none s1 in
    let other : (kernel.errno (setnonblocking kernel none s1) == emfile) ≡ false =
      ap (λ n. n == emfile) (refuses (set_nonblock r.0) r.1) in
    ap (λ o. answer kernel a (o, setnonblocking kernel o s1)) fails ∙ if_false _ _ _ other
