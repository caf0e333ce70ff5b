-- ===== src/Sockets.antt =====
-- The class Socket of include/common/socket.h and src/common/socket.cpp as far as it is not system
-- calls, and what ConnectionPool::run does for a connection that has data.
pub mod Framing
pub mod Unique
pub mod Blocking
use gazon.Base.{
  ℕ, zero, suc, ◌+◌, Bool, true, false, not, List, [], ◌∷◌, ◌++◌, Option, none, some, Text, codes,
  length, nat_eq, if◌then◌else◌,
}
use gazon.Errors.{Result, ok, throw, networking_exception}

-- `is_open`: the descriptor is not negative.
pub record Socket : Type 0 where
  pub is_open : Bool
  pub received : Text
  pub deferred_close : Bool
  pub throw_on_close : Bool
  pub dirty : Bool

-- What `::read` answers: bytes, none at the end of the stream, or an error with its message.
pub data Read : Type 0 where
  bytes : Text → Read
  fails : Text → Read

abbrev pub close_fd : Socket → Socket
close_fd s = record s { dirty = true; is_open = false }

-- `Socket::close`
unfoldable pub close : Socket → Result (Unit {0}) × Socket
close s =
    if s.deferred_close
    then (ok tt, record s { dirty = true })
    else if s.throw_on_close
    then (throw (networking_exception (codes "Connection closed by remote.")), close_fd s)
    else (ok tt, close_fd s)

abbrev pub buffered : Read → Socket → Result ℕ × Socket
buffered (bytes data_read) s =
    (ok (length data_read), record s { received = s.received ++ data_read })
buffered (fails message) s = (throw (networking_exception message), s)

abbrev pub buffer_if : Bool → Read → Socket → Result ℕ × Socket
buffer_if true r s = buffered r s
buffer_if false r s =
    (throw (networking_exception (codes "Could not buffer: socket is uninitialized.")), s)

-- `Socket::buffer`
unfoldable pub buffer : Read → Socket → Result ℕ × Socket
buffer r s = buffer_if s.is_open r s

abbrev pub in_line : ℕ → Option (Text × Text) → Option (Text × Text)
in_line c none = none
in_line c (some (line, rest)) = some (c ∷ line, rest)

-- the text up to the first line break, and behind it
unfoldable pub split_line : Text → Option (Text × Text)
split_line [] = none
split_line (c ∷ s) = if nat_eq c 10 then some ([], s) else in_line c (split_line s)

abbrev pub line_taken : Option (Text × Text) → Socket → Option (Text × Socket)
line_taken none s = none
line_taken (some (line, rest)) s = some (line, record s { received = rest })

-- `Socket::getLine`
unfoldable pub get_line : Socket → Option (Text × Socket)
unfolding split_line
get_line s = line_taken (split_line s.received) s

abbrev pub add_packet : Text → Option (List Text × Socket) → Option (List Text × Socket)
add_packet packet none = none
add_packet packet (some (packets, s)) = some (packet ∷ packets, s)

abbrev pub hand_over :
    Option (Text × Socket)
    → Socket
    → (Socket → Option (List Text × Socket))
    → Option (List Text × Socket)
hand_over none s next = some ([], s)
hand_over (some (packet, s')) s next = add_packet packet (next s')

-- The loop that hands the packets over, on fuel.
unfoldable pub drain : ℕ → Socket → Option (List Text × Socket)
unfolding get_line
drain zero s = none
drain (suc fuel) s = hand_over (get_line s) s (drain fuel)

-- What a step of the event loop does to a connection: it throws, or hands packets over.
abbrev pub Served : Type 0
Served = Result (List Text) × Socket

abbrev pub end_of_stream : Result (Unit {0}) × Socket → Option Served
end_of_stream (ok u, s) = some (ok [], s)
end_of_stream (throw e, s) = some (throw e, s)

abbrev pub drained : Option (List Text × Socket) → Option Served
drained none = none
drained (some (packets, s)) = some (ok packets, s)

abbrev pub after_buffer : Result ℕ × Socket → Option Served
after_buffer (throw e, s) = some (throw e, s)
after_buffer (ok zero, s) = end_of_stream (close s)
after_buffer (ok (suc n), s) = drained (drain (length s.received + 1) s)

-- The body of the loop over the connections, for one that is ready.
unfoldable pub serve_ready : Read → Socket → Option Served
unfolding buffer drain close
serve_ready r s = after_buffer (buffer r s)

abbrev pub more_served : List Text → Option Served → Option Served
more_served packets none = none
more_served packets (some (throw e, s)) = some (throw e, s)
more_served packets (some (ok packets', s)) = some (ok (packets ++ packets'), s)

abbrev pub then_serve : Option Served → (Socket → Option Served) → Option Served
then_serve none next = none
then_serve (some (throw e, s)) next = some (throw e, s)
then_serve (some (ok packets, s)) next = more_served packets (next s)

-- The event loop as one connection sees it.
unfoldable pub serve_reads : List Read → Socket → Option Served
unfolding serve_ready
serve_reads [] s = some (ok [], s)
serve_reads (r ∷ rs) s = then_serve (serve_ready r s) (serve_reads rs)

-- What the blocking read comes to, with the reads that are left: it waits for more, or it returns,
-- with the line unless the stream ended, or throws.
pub data Reading : Type 0 where
  waits : Socket → Reading
  returns : Result (Option Text) → Socket → List Read → Reading

abbrev pub line_or : Option (Text × Socket) → List Read → Reading → Reading
line_or none reads other = other
line_or (some (line, s)) reads other = returns (ok (some line)) s reads

abbrev pub stream_closed : Result (Unit {0}) × Socket → List Read → Reading
stream_closed (ok u, s) reads = returns (ok none) s reads
stream_closed (throw e, s) reads = returns (throw e) s reads

abbrev pub read_more : Result ℕ × Socket → List Read → (Socket → Reading) → Reading
read_more (throw e, s) reads next = returns (throw e) s reads
read_more (ok zero, s) reads next = stream_closed (close s) reads
read_more (ok (suc n), s) reads next = next s

-- The loop of the blocking read.
unfoldable pub wait_line : List Read → Socket → Reading
unfolding get_line buffer close
wait_line [] s = line_or (get_line s) [] (waits s)
wait_line (r ∷ reads) s =
    line_or (get_line s) (r ∷ reads) (read_more (buffer r s) reads (wait_line reads))

abbrev pub read_if : Bool → List Read → Socket → Reading
read_if true reads s = wait_line reads s
read_if false reads s =
    returns (throw (networking_exception (codes "Could not read: socket is uninitialized."))) s
      reads

-- `operator>>`
unfoldable pub read_line : List Read → Socket → Reading
unfolding wait_line
read_line reads s = read_if s.is_open reads s
