-- ===== src/Net/StreamExamples.antt =====
-- The write buffer of a channel on a stream of blocks.
use uring_proactor.Base.{drop, ◌≡◌, refl, Bool, Option, none, some, [], ◌∷◌, ◌++◌, arith}
use uring_proactor.Base.Ring.{size, items, back, front, push, advance}
use uring_proactor.Buffer.BufPool.{acquire}
use uring_proactor.Buffer.Stream.Invariant.{send_bytes, IsStream}
use uring_proactor.Buffer.WriteBuf.Invariant.{pending_list, pending_bytes}
use uring_proactor.Net.StreamBuffer.Message.{message_lem}
use uring_proactor.Buffer.WriteBuf.{Writer, append, prepend}
use uring_proactor.Buffer.Stream.{Stream, submit, consume_written}
use uring_proactor.Buffer.Examples.{nobody, stream, stream-IsStream}
use uring_proactor.Net.StreamBuffer.{stream_buffer}
use uring_proactor.Net.Channel.{Channel}
use uring_proactor.Net.Channel.Run.{Reach, Reach-IsSettled}
use uring_proactor.Net.Channel.Complete.{IsSettled}
use uring_proactor.Net.StreamBuffer.Keeps.{Sound}

-- A connection over a stream.
stream_connection :
    (c : Channel (Sound nobody))
    → Reach (stream_buffer nobody) c
    → IsSettled (stream_buffer nobody) c
stream_connection c r = Reach-IsSettled (stream_buffer nobody) r

-- The state that a call leaves, and the stream with it.
abbrev left_by : Option (Bool × Writer) → Writer
left_by none = stream.base
left_by (some (ok, s)) = s

abbrev with_body : Writer
with_body = left_by (append (50 ∷ []) stream.base)

abbrev with_header : Writer
with_header = left_by (some (prepend (51 ∷ 52 ∷ []) with_body))

abbrev ready : Stream
ready = (submit (record stream { base = with_header })).1

message_example :
    (send_bytes ready
      ≡ send_bytes stream ++ ((51 ∷ 52 ∷ []) ++ (pending_bytes stream.base ++ (50 ∷ []))))
    × (pending_list ready.base ≡ [])
    × ((r : Stream) × (consume_written 7 ready ≡ some r)
        × IsStream nobody r
        × (send_bytes r
            ≡ drop 7 (
                send_bytes stream ++ ((51 ∷ 52 ∷ []) ++ (pending_bytes stream.base ++ (50 ∷ []))))))
unfolding append prepend submit items size back acquire front push advance
message_example =
    message_lem stream (51 ∷ 52 ∷ []) (50 ∷ []) with_body with_header ready 7 stream-IsStream
      (omega arith) refl refl refl (omega arith)
