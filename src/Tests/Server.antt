-- ===== src/Tests/Server.antt =====
-- 202110421_assign5/server.c: a sample client.
use system_programming.Base.{ℕ, suc, ◌≤◌, ◌≡◌, refl, List, [], ◌∷◌, length, arith}
use system_programming.Server.{
  line_length, Served, answer, unfinished, bytes, count, Conn, opened, head_round, recv_test,
  append_bytes, recv_round, serve_round, send_test, send_round, head, test_recv, recv, serve_line,
  test_send, send_some, Steps, stay, then_step,
}
use system_programming.Server.Buffer.{Steps-total_buf}
use system_programming.Server.Repeat.{serve_round-unfinished}

program : Unit {0}
unfolding line_length head_round recv_test append_bytes recv_round serve_round send_test send_round
program = tt

-- Each line is its own answer, and the store counts them.
abbrev echo : ℕ → List ℕ → ℕ × Served
echo n line = (suc n, answer line)

abbrev wait_for_more : ℕ → List ℕ → ℕ × Served
wait_for_more n line = (n, unfinished)

abbrev accepted : Conn ℕ
accepted = opened 0

abbrev waiting : Conn ℕ
waiting = recv_test (head_round accepted)

abbrev with_line : Conn ℕ
with_line = recv_round 1024 waiting (bytes (97 ∷ 10 ∷ 98 ∷ []))

abbrev in_answer : Conn ℕ
in_answer = send_test (serve_round echo with_line 2) 2 (97 ∷ 10 ∷ []) 0

abbrev half_sent : Conn ℕ
half_sent = send_round in_answer 2 (97 ∷ 10 ∷ []) 0 (count 1)

half : Steps echo 1024 accepted half_sent
unfolding program
half =
    then_step
      (then_step
        (then_step
          (then_step
            (then_step (then_step stay (head accepted refl)) (test_recv (head_round accepted) refl))
            (recv waiting (bytes (97 ∷ 10 ∷ 98 ∷ [])) refl))
          (serve_line with_line 2 refl))
        (test_send (serve_round echo with_line 2) 2 (97 ∷ 10 ∷ []) 0 refl))
      (send_some in_answer 2 (97 ∷ 10 ∷ []) 0 1 refl (omega arith))

half_output : half_sent.output ≡ 97 ∷ []
unfolding program
half_output = refl

Steps-total_buf_example : length half_sent.total_buf ≤ 1024
Steps-total_buf_example = Steps-total_buf echo 1024 0 half_sent half

serve_round-unfinished_example : head_round (serve_round wait_for_more with_line 2) ≡ with_line
unfolding program
serve_round-unfinished_example =
    serve_round-unfinished wait_for_more with_line 2 refl refl refl refl refl
