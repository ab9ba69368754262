-- ===== src/Tests/Vless.antt =====
-- A request and a packet on a stream.
use zeropentime.Netip.{v4, unmap}
use zeropentime.Prelude.{◌≡◌, refl, ◌++◌, some, arith, codes, replicate}
use zeropentime.Vless.{write_request, read_request}
use zeropentime.Vless.Stream.{read_request-write_request}

read_request-write_request_example :
    read_request (
      write_request (record {
        user = replicate 16 7;
        command = 2;
        dest = record { addr = v4 0x0a640101; port = 4790 };
      })
      ++ codes "more")
    ≡ some (
      record {
        user = replicate 16 7;
        command = 2;
        dest = record { addr = unmap (v4 0x0a640101); port = 4790 };
      },
      codes "more",
    )
read_request-write_request_example =
    read_request-write_request (replicate 16 7) (codes "more") 2 4790 (v4 0x0a640101) refl
      (omega arith) (omega arith)
