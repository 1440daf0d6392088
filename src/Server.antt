-- ===== src/Server.antt =====
-- 202110421_assign5/server.c: one client of a worker thread, the inner loop of `handle_client`. It is cut into
-- rounds at the tests of `g_shutdown` and at the calls of `recv` and `send`, so that a signal can come between.
-- The store `ctx` is taken as changed by this client alone, without a step of another thread.
pub mod Session
pub mod Answers
pub mod Buffer
pub mod Repeat
use system_programming.Base.{
  ℕ, zero, suc, ◌+◌, ◌-◌, ◌≤◌, ◌≡◌, Bool, true, false, ◌&&◌, not, Option, none, some, List, [], ◌∷◌,
  ◌++◌, ◌==◌, ltb, leb, if◌then◌else◌, length, take, drop,
}

abbrev pub newline : ℕ
newline = 10

-- The search for a newline: the length of the first line with it.
unfoldable pub line_length : List ℕ → Option ℕ
line_length [] = none
line_length (c ∷ text) =
    let later = line_length text in
    if c == newline then some 1 else elim later [ none ↦ none | some n ↦ some (suc n) ]

-- What `skvs_serve` returns: below zero, zero, or above with a response.
pub data Served : Type 0 where
  failed : Served
  unfinished : Served
  answer : List ℕ → Served

-- Where the loop is; `serving` has `line_len`, and `sending` the response and `sent` too.
pub data Phase : Type 0 where
  at_head : Phase
  receiving : Phase
  in_recv : Phase
  serving : ℕ → Phase
  sending : ℕ → List ℕ → ℕ → Phase
  in_send : ℕ → List ℕ → ℕ → Phase
  closed : Phase

-- With a line in the buffer it is served, and more is received without one.
abbrev pub next_phase : Option ℕ → Phase → Phase
next_phase none p = p
next_phase (some n) p = serving n

abbrev pub is_empty_line : ℕ → List ℕ → Bool
is_empty_line n [] = false
is_empty_line n (c ∷ text) = (n == 1) && (c == newline)

-- What the calls return; nothing received is the end of the stream, and an error tells if it is EINTR.
pub data Received : Type 0 where
  bytes : List ℕ → Received
  recv_error : Bool → Received

pub data Sent : Type 0 where
  count : ℕ → Sent
  send_error : Bool → Sent

-- `total_buf` is its used part. All that has been received and sent is kept too.
pub record Conn (C : Type 0) : Type 0 where
  pub ctx : C
  pub total_buf : List ℕ
  pub phase : Phase
  pub shutdown : Bool
  pub input : List ℕ
  pub output : List ℕ

module _ {C : Type 0} where
  abbrev pub go : Conn C → Phase → Conn C
  go s p = record s { phase = p }

  abbrev pub opened : C → Conn C
  opened ctx = record {
    ctx = ctx;
    total_buf = [];
    phase = at_head;
    shutdown = false;
    input = [];
    output = [];
  }

  unfoldable pub head_round : Conn C → Conn C
  head_round s =
      if s.shutdown then go s closed else go s (next_phase (line_length s.total_buf) receiving)

  unfoldable pub recv_test : Conn C → Conn C
  recv_test s = if s.shutdown then go s closed else go s in_recv

  unfoldable pub append_bytes : ℕ → Conn C → List ℕ → Conn C
  append_bytes buf_size s single_buf =
      let total_buf' = s.total_buf ++ single_buf in
      if ltb buf_size (length s.total_buf + length single_buf) then go s closed else record s {
        total_buf = total_buf';
        input = s.input ++ single_buf;
        phase = next_phase (line_length total_buf') receiving;
      }

  unfoldable pub recv_round : ℕ → Conn C → Received → Conn C
  unfolding append_bytes
  recv_round buf_size s (bytes []) = go s closed
  recv_round buf_size s (bytes (c ∷ text)) = append_bytes buf_size s (c ∷ text)
  recv_round buf_size s (recv_error interrupted) =
      if interrupted && not s.shutdown then go s receiving else go s closed

  abbrev pub after_serve : Conn C → ℕ → C × Served → Conn C
  after_serve s n (ctx', failed) = record s { ctx = ctx'; phase = closed }
  after_serve s n (ctx', unfinished) = record s { ctx = ctx'; phase = at_head }
  after_serve s n (ctx', answer w) = record s { ctx = ctx'; phase = sending n w 0 }

  unfoldable pub serve_round : (C → List ℕ → C × Served) → Conn C → ℕ → Conn C
  serve_round serve s n =
      if s.shutdown
      then go s closed
      else if is_empty_line n s.total_buf
      then go s closed
      else after_serve s n (serve s.ctx (take n s.total_buf))

  -- The line that has been served leaves the buffer.
  abbrev pub consume : Conn C → ℕ → Phase → Conn C
  consume s n p = record s { total_buf = drop n s.total_buf; phase = p }

  unfoldable pub send_test : Conn C → ℕ → List ℕ → ℕ → Conn C
  send_test s n w sent =
      if ltb sent (length w) then go s (in_send n w sent) else consume s n at_head

  unfoldable pub send_round : Conn C → ℕ → List ℕ → ℕ → Sent → Conn C
  send_round s n w sent (send_error interrupted) =
      if interrupted && not s.shutdown then go s (sending n w sent) else consume s n closed
  send_round s n w sent (count zero) = consume s n closed
  send_round s n w sent (count (suc m)) = record s {
    output = s.output ++ take (suc m) (drop sent w);
    phase = sending n w (sent + suc m);
  }

  -- The rounds of the loop, and a signal at any time. `send` takes no more than it is given.
  pub data Step (serve : C → List ℕ → C × Served) (buf_size : ℕ) : Conn C → Conn C → Type 0 where
    head : (s : Conn C) → s.phase ≡ at_head → Step serve buf_size s (head_round s)
    test_recv : (s : Conn C) → s.phase ≡ receiving → Step serve buf_size s (recv_test s)
    recv :
        (s : Conn C) (r : Received)
        → s.phase ≡ in_recv
        → Step serve buf_size s (recv_round buf_size s r)
    serve_line :
        (s : Conn C) (n : ℕ) → s.phase ≡ serving n → Step serve buf_size s (serve_round serve s n)
    test_send :
        (s : Conn C) (n : ℕ) (w : List ℕ) (sent : ℕ)
        → s.phase ≡ sending n w sent
        → Step serve buf_size s (send_test s n w sent)
    send_some :
        (s : Conn C) (n : ℕ) (w : List ℕ) (sent m : ℕ)
        → s.phase ≡ in_send n w sent
        → sent + m ≤ length w
        → Step serve buf_size s (send_round s n w sent (count m))
    send_failed :
        (s : Conn C) (n : ℕ) (w : List ℕ) (sent : ℕ) (interrupted : Bool)
        → s.phase ≡ in_send n w sent
        → Step serve buf_size s (send_round s n w sent (send_error interrupted))
    signal : (s : Conn C) → Step serve buf_size s (record s { shutdown = true })

  pub data Steps (serve : C → List ℕ → C × Served) (buf_size : ℕ) (s : Conn C)
      : Conn C → Type 0 where
    stay : Steps serve buf_size s s
    then_step :
        {t u : Conn C}
        → Steps serve buf_size s t
        → Step serve buf_size t u
        → Steps serve buf_size s u
