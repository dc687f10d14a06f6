-- ===== src/Examples/Streams.antt =====
-- An example on the stream of an application.
use barry.Prelude.{◌≡◌, some, [], ◌∷◌}
use barry.JavaLoader.{Loader, Streamed, send_stream, ack}
use barry.JavaLoader.Stream.{IsLoaded, send_stream-IsLoaded}

abbrev acked : Loader
acked = record { socket = 4; answers = some ack ∷ some ack ∷ []; sent = [] }

send_stream-IsLoaded_example :
    (x : Streamed) × (send_stream 3 (7 ∷ 8 ∷ 9 ∷ 10 ∷ []) acked ≡ some x)
    × IsLoaded 3 (7 ∷ 8 ∷ 9 ∷ 10 ∷ []) acked x
send_stream-IsLoaded_example = send_stream-IsLoaded 3 (7 ∷ 8 ∷ 9 ∷ 10 ∷ []) acked
