-- ===== src/HttpResponse/Tests.antt =====
-- The types of files, and a length in digits.
use tiny_http_server.Prelude.{◌≡◌, refl, codes}
use tiny_http_server.Prelude.Map.{lookup}
use tiny_http_server.Prelude.Digits.{digits}
use tiny_http_server.HttpResponse.{get_file_type, suffix_of}

reads : get_file_type (codes "/a.tar.gz") ≡ codes "application/x-gzip"
unfolding get_file_type suffix_of lookup
reads = refl

counts : digits 20 1024 ≡ codes "1024"
unfolding digits
counts = refl
