-- ===== src/Server/Buffer.antt =====
-- 202110421_assign5/server.c: the array `total_buf`.
use system_programming.Base.{
  ℕ, zero, suc, ◌+◌, ◌≤◌, ◌&&◌, not, List, [], ◌∷◌, ltb, if-cases, length, length-append,
  length-drop, take, arith,
}
use system_programming.Server.{
  Served, failed, unfinished, answer, Received, bytes, recv_error, Sent, count, send_error, Conn,
  opened, head_round, recv_test, append_bytes, recv_round, is_empty_line, after_serve, serve_round,
  send_test, send_round, Step, head, test_recv, recv, serve_line, test_send, send_some, send_failed,
  signal, Steps, stay, then_step,
}

module _ {C : Type 0} (serve : C → List ℕ → C × Served) (buf_size : ℕ) where
  abbrev Bounded : Conn C → Type 0
  Bounded s = length s.total_buf ≤ buf_size

  head-Bounded : (s : Conn C) → Bounded s → Bounded (head_round s)
  unfolding head_round
  head-Bounded s b = if-cases Bounded s.shutdown (λ _. b) (λ _. b)

  recv_test-Bounded : (s : Conn C) → Bounded s → Bounded (recv_test s)
  unfolding recv_test
  recv_test-Bounded s b = if-cases Bounded s.shutdown (λ _. b) (λ _. b)

  append_bytes-Bounded :
      (s : Conn C) (more : List ℕ) → Bounded s → Bounded (append_bytes buf_size s more)
  unfolding append_bytes
  append_bytes-Bounded s more b =
      if-cases Bounded (ltb buf_size (length s.total_buf + length more)) (λ _. b)
        (λ e. ground (arith, e, length-append s.total_buf more))

  recv-Bounded : (s : Conn C) (r : Received) → Bounded s → Bounded (recv_round buf_size s r)
  unfolding recv_round
  recv-Bounded s (bytes []) b = b
  recv-Bounded s (bytes (c ∷ text)) b = append_bytes-Bounded s (c ∷ text) b
  recv-Bounded s (recv_error interrupted) b =
      if-cases Bounded (interrupted && not s.shutdown) (λ _. b) (λ _. b)

  after_serve-Bounded :
      (s : Conn C) (n : ℕ) (r : C × Served) → Bounded s → Bounded (after_serve s n r)
  after_serve-Bounded s n (ctx, failed) b = b
  after_serve-Bounded s n (ctx, unfinished) b = b
  after_serve-Bounded s n (ctx, answer w) b = b

  serve-Bounded : (s : Conn C) (n : ℕ) → Bounded s → Bounded (serve_round serve s n)
  unfolding serve_round
  serve-Bounded s n b =
      if-cases Bounded s.shutdown (λ _. b)
        (λ _.
          if-cases Bounded (is_empty_line n s.total_buf) (λ _. b)
            (λ _. after_serve-Bounded s n (serve s.ctx (take n s.total_buf)) b))

  test_send-Bounded :
      (s : Conn C) (n : ℕ) (w : List ℕ) (sent : ℕ) → Bounded s → Bounded (send_test s n w sent)
  unfolding send_test
  test_send-Bounded s n w sent b =
      if-cases Bounded (ltb sent (length w)) (λ _. b)
        (λ _. omega (arith, b, length-drop n s.total_buf))

  send-Bounded :
      (s : Conn C) (n : ℕ) (w : List ℕ) (sent : ℕ) (r : Sent)
      → Bounded s
      → Bounded (send_round s n w sent r)
  unfolding send_round
  send-Bounded s n w sent (send_error interrupted) b =
      if-cases Bounded (interrupted && not s.shutdown) (λ _. b)
        (λ _. omega (arith, b, length-drop n s.total_buf))
  send-Bounded s n w sent (count zero) b = omega (arith, b, length-drop n s.total_buf)
  send-Bounded s n w sent (count (suc m)) b = b

  Step-Bounded : {s t : Conn C} → Step serve buf_size s t → Bounded s → Bounded t
  Step-Bounded (head s e) b = head-Bounded s b
  Step-Bounded (test_recv s e) b = recv_test-Bounded s b
  Step-Bounded (recv s r e) b = recv-Bounded s r b
  Step-Bounded (serve_line s n e) b = serve-Bounded s n b
  Step-Bounded (test_send s n w sent e) b = test_send-Bounded s n w sent b
  Step-Bounded (send_some s n w sent m e le) b = send-Bounded s n w sent (count m) b
  Step-Bounded (send_failed s n w sent interrupted e) b =
      send-Bounded s n w sent (send_error interrupted) b
  Step-Bounded (signal s) b = b

-- However much a client sends, `total_buf` never holds more bytes than it has room for.
pub Steps-total_buf :
    {C : Type 0} (serve : C → List ℕ → C × Served) (buf_size : ℕ) (start : C) (s : Conn C)
    → Steps serve buf_size (opened start) s
    → length s.total_buf ≤ buf_size
Steps-total_buf serve buf_size start s stay = omega arith
Steps-total_buf serve buf_size start s (then_step {t = t} steps step) =
    Step-Bounded serve buf_size step (Steps-total_buf serve buf_size start t steps)
