-- ===== src/Server/Repeat.antt =====
-- 202110421_assign5/server.c: a line for which `skvs_serve` returns 0.
use system_programming.Base.{ℕ, ◌≡◌, refl, sym, ◌∙◌, ap, false, some, List, if-cases, take}
use system_programming.Server.{
  line_length, Served, unfinished, at_head, receiving, serving, Conn, go, next_phase, head_round,
  is_empty_line, after_serve, serve_round,
}

module _ {C : Type 0} (serve : C → List ℕ → C × Served) (s : Conn C) (n : ℕ)
    (down : s.shutdown ≡ false) where
  served-on :
      is_empty_line n s.total_buf ≡ false
      → serve_round serve s n ≡ after_serve s n (serve s.ctx (take n s.total_buf))
  unfolding serve_round
  served-on full =
      let Done : Conn C → Type 0 = λ g. g ≡ after_serve s n (serve s.ctx (take n s.total_buf)) in
      if-cases Done s.shutdown (λ e. absurd cc)
        (λ _. if-cases Done (is_empty_line n s.total_buf) (λ e. absurd cc) (λ _. refl))

  found-again : line_length s.total_buf ≡ some n → head_round (go s at_head) ≡ go s (serving n)
  unfolding head_round
  found-again l =
      if-cases (λ (g : Conn C). g ≡ go s (serving n)) s.shutdown (λ e. absurd cc)
        (λ _. ap (λ o. go s (next_phase o receiving)) l)

-- If `skvs_serve` returns 0 for the first line of the buffer, a line that is not empty, and leaves the store
-- as it is, then the loop is back in the same state after its next test: it has received nothing more, and
-- serves the same line again.
pub serve_round-unfinished :
    {C : Type 0} (serve : C → List ℕ → C × Served) (s : Conn C) (n : ℕ)
    → s.phase ≡ serving n
    → line_length s.total_buf ≡ some n
    → is_empty_line n s.total_buf ≡ false
    → s.shutdown ≡ false
    → serve s.ctx (take n s.total_buf) ≡ (s.ctx, unfinished)
    → head_round (serve_round serve s n) ≡ s
serve_round-unfinished serve s n e l full down same =
    ap head_round (served-on serve s n down full ∙ ap (after_serve s n) same)
    ∙ found-again serve s n down l
    ∙ ap (go s) (sym e)
