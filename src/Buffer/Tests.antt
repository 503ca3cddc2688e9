-- ===== src/Buffer/Tests.antt =====
-- Runs of the buffer on small inputs.
use tiny_http_server.Prelude.{◌≡◌, refl, List, [], ◌∷◌, arith, codes, write_at}
use tiny_http_server.Prelude.Result.{ok, fail, Returns, assertion}
use tiny_http_server.Buffer.{Buffer, append, retrieve, make}
use tiny_http_server.Buffer.Bounds.{IsValid, view, make-IsValid}
use tiny_http_server.Buffer.Run.{Op, put, get, get_all, run, run_queue, run_refines, total}

-- "abc" in a vector of twelve bytes: one byte is free behind it.
abbrev sample : Buffer
sample = record {
  bytes = 0 ∷ 0 ∷ 0 ∷ 0 ∷ 0 ∷ 0 ∷ 0 ∷ 0 ∷ 97 ∷ 98 ∷ 99 ∷ 0 ∷ [];
  reader_index = 8;
  writer_index = 11;
}

-- The same after "ab" is read: three bytes could be written if "c" moved to the front.
abbrev partly_read : Buffer
partly_read = record sample { reader_index = 10 }

sample-IsValid : IsValid sample
sample-IsValid = omega arith

moves_to_front :
    append partly_read (codes "xyz")
    ≡ ok (record {
      bytes = 0 ∷ 0 ∷ 0 ∷ 0 ∷ 0 ∷ 0 ∷ 0 ∷ 0 ∷ codes "cxyz";
      reader_index = 8;
      writer_index = 12;
    })
unfolding append write_at
moves_to_front = refl

refuses : retrieve sample 4 ≡ fail assertion
unfolding retrieve
refuses = refl

abbrev calls : List Op
calls = get 2 ∷ put (codes "xyz") ∷ get 1 ∷ put (codes "0123") ∷ get_all ∷ get 1 ∷ []

make-IsValid_example : Returns (make 1024) (λ b. IsValid b × (view b ≡ []))
make-IsValid_example = make-IsValid 1024 (omega arith)

run_refines_example : run sample calls ≡ run_queue (codes "abc") calls
unfolding total
run_refines_example = run_refines calls sample-IsValid (omega arith)
