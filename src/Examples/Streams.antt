-- ===== src/Examples/Streams.antt =====
-- A connection that gets bytes, on concrete data.
use gazon.Base.{◌≡◌, ◌≢◌, refl, true, false, List, [], ◌∷◌, ◌++◌, All, some, Text, codes, map}
use gazon.Errors.{ok}
use gazon.Scan.Split.{Lacks}
use gazon.Transfer.Receive.{joined}
use gazon.Sockets.{Socket, bytes, serve_reads, returns, read_line}
use gazon.Sockets.Blocking.{read_line_returns}
use gazon.Sockets.Framing.{terminated, packets_of_stream}
use gazon.Sockets.Unique.{packets_independent_of_reads}

abbrev connection : Socket
connection = record {
  is_open = true;
  received = codes "lo";
  deferred_close = true;
  throw_on_close = false;
  dirty = false;
}

abbrev in_two : List Text
in_two = codes "gin bob\npa" ∷ codes "ss hidden\nls" ∷ []

abbrev in_three : List Text
in_three = codes "gin" ∷ codes " bob\npass hidden" ∷ codes "\nls" ∷ []

two_packets :
    serve_reads (map bytes in_two) connection
    ≡ some (
      ok (codes "login bob" ∷ codes "pass hidden" ∷ []),
      record connection { received = codes "ls" },
    )
unfolding serve_reads
two_packets = refl

two_are_not_empty : All (λ chunk. chunk ≢ []) in_two
two_are_not_empty = ((λ e. cc), ((λ e. cc), tt))

three_are_not_empty : All (λ chunk. chunk ≢ []) in_three
three_are_not_empty = ((λ e. cc), ((λ e. cc), ((λ e. cc), tt)))

packets_of_stream_example :
    (packets : List Text) × (rest : Text) × (serve_reads (map bytes in_two) connection
      ≡ some (ok packets, record connection { received = rest }))
    × (connection.received ++ joined in_two ≡ terminated packets ++ rest)
    × All (Lacks 10) packets
    × Lacks 10 rest
packets_of_stream_example =
    packets_of_stream connection in_two refl (refl, (refl, tt)) two_are_not_empty

packets_independent_of_reads_example :
    serve_reads (map bytes in_two) connection ≡ serve_reads (map bytes in_three) connection
packets_independent_of_reads_example =
    packets_independent_of_reads connection in_two in_three refl (refl, (refl, tt))
      two_are_not_empty three_are_not_empty refl

login_bob-Lacks : Lacks 10 (codes "login bob")
login_bob-Lacks = (refl, (refl, (refl, (refl, (refl, (refl, (refl, (refl, (refl, tt)))))))))

read_line_returns_example :
    (received : Text) × (left : List Text) × (read_line (map bytes in_three) connection
      ≡ returns
          (ok (some (codes "login bob")))
          (record connection { received = received })
          (map bytes left))
    × (received ++ joined left ≡ codes "pass hidden\nls")
read_line_returns_example =
    read_line_returns connection in_three (codes "login bob") (codes "pass hidden\nls") refl
      three_are_not_empty login_bob-Lacks refl
