-- ===== src/Acceptor/Tests.antt =====
-- A kernel that has run out of descriptors; its state is `errno`.
use tiny_http_server.Prelude.{ℕ, ◌≡◌, refl, true, [], Option, none, some}
use tiny_http_server.Acceptor.{
  Kernel, Command, ebadf, emfile, Acceptor, setnonblocking, handle_read,
}
use tiny_http_server.Acceptor.Spare.{RefusesBad, spare_unused}

abbrev flags_of : Command → Option ℕ → ℕ → Option ℕ × ℕ
flags_of op none s = (none, ebadf)
flags_of op (some fd) s = (some 0, s)

abbrev full : Kernel
full = record {
  State = ℕ;
  errno = λ s. s;
  accept = λ s. (none, emfile);
  fcntl = flags_of;
  close = λ fd s. s;
  open_null = λ s. (some 5, s);
}

full-RefusesBad : RefusesBad full
full-RefusesBad op s = refl

abbrev acceptor : Acceptor
acceptor = record { idle_fd = some 5; has_callback = true; accepted = [] }

spare_unused_example : handle_read full acceptor 0 ≡ (acceptor, setnonblocking full none emfile)
spare_unused_example = spare_unused full acceptor 0 full-RefusesBad refl
