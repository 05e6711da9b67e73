-- ===== src/Net/SendBuffer.antt =====
-- What the write loop of a channel relies on of its write buffer (`write_buf_` of
-- include/net/channel.hpp): the operations of WriteBufStream and what holds of them.
use uring_proactor.Base.{ℕ, ◌≤◌, ◌≡◌, Bool, true, false, Option, none, some, List}
use uring_proactor.Buffer.Stream.{Iovec}

pub record SendBuffer (W : Type 0) : Type 0 where
  pub append : List ℕ → W → Bool × W
  pub prepend : List ℕ → W → Bool × W
  pub submit : W → Bool × W
  pub has_send_data : W → Bool
  pub peek_iovec : W → Option (List Iovec × ℕ)
  pub consume_written : ℕ → W → Option W
  pub reset : W → W
  -- How many bytes are submitted and not yet written.
  pub queued : W → ℕ
  -- Waiting bytes are not sent before `submit`, which leaves something to send where it succeeds.
  pub has-append : (bytes : List ℕ) (w : W) → has_send_data (append bytes w).1 ≡ has_send_data w
  pub queued-append : (bytes : List ℕ) (w : W) → queued (append bytes w).1 ≡ queued w
  pub has-prepend : (bytes : List ℕ) (w : W) → has_send_data (prepend bytes w).1 ≡ has_send_data w
  pub queued-prepend : (bytes : List ℕ) (w : W) → queued (prepend bytes w).1 ≡ queued w
  pub has-submit : (w : W) → (submit w).0 ≡ true → has_send_data (submit w).1 ≡ true
  pub queued-submit : (w : W) → queued w ≤ queued (submit w).1
  pub refused-submit : (w : W) → (submit w).0 ≡ false → (submit w).1 ≡ w
  -- There are vectors for `writev` exactly where there is something to send.
  pub peek-none : (w : W) → has_send_data w ≡ false → peek_iovec w ≡ none
  pub peek-some :
      (w : W)
      → has_send_data w ≡ true
      → (vecs : List Iovec) × (bytes : ℕ) × (peek_iovec w ≡ some (vecs, bytes)) × (bytes ≤ queued w)
  -- The assertion of `consume_written` holds for as many bytes as are queued.
  pub written : (w : W) (n : ℕ) → n ≤ queued w → (r : W) × (consume_written n w ≡ some r)
  pub has-reset : (w : W) → has_send_data (reset w) ≡ false
