-- ===== src/Server/Session.antt =====
-- 202110421_assign5/server.c: what a client has been sent, as the answers to its lines.
use system_programming.Base.{
  ℕ, ◌≤◌, ◌≡◌, ◌⊎◌, inl, inr, refl, sym, ◌∙◌, true, some, List, [], ◌++◌, append-nil, length, take,
}
use system_programming.Server.{
  line_length, Served, unfinished, answer, Phase, at_head, receiving, in_recv, serving, sending,
  in_send, closed, Conn, go,
}

module _ {C : Type 0} (serve : C → List ℕ → C × Served) (start : C) where
  -- `Session ctx used out`: `skvs_serve` was called on the lines of `used`, one after another, each until it
  -- answered; `out` are the answers, and `ctx` is what it has made of the store.
  pub data Session : C → List ℕ → List ℕ → Type 0 where
    begin : Session start [] []
    answered :
        {ctx ctx' : C} {used out : List ℕ} (n : ℕ) (text w : List ℕ)
        → Session ctx used out
        → line_length text ≡ some n
        → serve ctx (take n text) ≡ (ctx', answer w)
        → Session ctx' (used ++ take n text) (out ++ w)
    again :
        {ctx ctx' : C} {used out : List ℕ} (n : ℕ) (text : List ℕ)
        → Session ctx used out
        → line_length text ≡ some n
        → serve ctx (take n text) ≡ (ctx', unfinished)
        → Session ctx' used out

  -- Between two lines: all of the answers have been sent.
  pub record Between (s : Conn C) : Type 0 where
    pub used : List ℕ
    pub session : Session s.ctx used s.output
    pub text : s.input ≡ used ++ s.total_buf

  -- Within the answer to the first line of the buffer.
  pub record Within (s : Conn C) (n : ℕ) (w : List ℕ) (sent : ℕ) : Type 0 where
    pub before : C
    pub used : List ℕ
    pub out : List ℕ
    pub session : Session before used out
    pub text : s.input ≡ used ++ s.total_buf
    pub line : line_length s.total_buf ≡ some n
    pub served : serve before (take n s.total_buf) ≡ (s.ctx, answer w)
    pub output : s.output ≡ out ++ take sent w
    pub bound : sent ≤ length w

  -- Nothing, or the first bytes of the answer to the first line of `rest`.
  abbrev pub Partial : C → List ℕ → List ℕ → Type 0
  Partial ctx rest part =
      (part ≡ [])
      ⊎ ((n : ℕ) × (w : List ℕ) × (ctx' : C) × (sent : ℕ) × (line_length rest ≡ some n)
          × (serve ctx (take n rest) ≡ (ctx', answer w))
          × (part ≡ take sent w))

  -- At the end: the answers to some first lines of the input, and a part of the next answer.
  pub record Ended (s : Conn C) : Type 0 where
    pub before : C
    pub used : List ℕ
    pub rest : List ℕ
    pub out : List ℕ
    pub part : List ℕ
    pub session : Session before used out
    pub text : s.input ≡ used ++ rest
    pub output : s.output ≡ out ++ part
    pub partial : Partial before rest part

  abbrev pub Holds : Conn C → Phase → Type 0
  Holds s at_head = Between s
  Holds s receiving = Between s
  Holds s in_recv = Between s
  Holds s (serving n) = Between s × (line_length s.total_buf ≡ some n)
  Holds s (sending n w sent) = Within s n w sent
  Holds s (in_send n w sent) = Within s n w sent
  Holds s closed = Ended s

  abbrev pub Inv : Conn C → Type 0
  Inv s = Holds s s.phase

  pub Between-Ended : (s : Conn C) → Between s → Ended s
  Between-Ended s b = record {
    before = s.ctx;
    used = b.used;
    rest = s.total_buf;
    out = s.output;
    part = [];
    session = b.session;
    text = b.text;
    output = sym (append-nil s.output);
    partial = inl refl;
  }

  pub Within-Ended : (s : Conn C) (n : ℕ) (w : List ℕ) (sent : ℕ) → Within s n w sent → Ended s
  Within-Ended s n w sent b = record {
    before = b.before;
    used = b.used;
    rest = s.total_buf;
    out = b.out;
    part = take sent w;
    session = b.session;
    text = b.text;
    output = b.output;
    partial = inr (n, w, s.ctx, sent, b.line, b.served, refl);
  }

  pub Between-go : (s : Conn C) (p : Phase) → Between s → Between (go s p)
  Between-go s p b = record { used = b.used; session = b.session; text = b.text }

  pub Ended-same : (s t : Conn C) → t.input ≡ s.input → t.output ≡ s.output → Ended s → Ended t
  Ended-same s t i o e = record {
    before = e.before;
    used = e.used;
    rest = e.rest;
    out = e.out;
    part = e.part;
    session = e.session;
    text = i ∙ e.text;
    output = o ∙ e.output;
    partial = e.partial;
  }

  pub closed-Inv : (s : Conn C) → Ended s → Inv (go s closed)
  closed-Inv s e = Ended-same s (go s closed) refl refl e

  pub Within-go :
      (s : Conn C) (p : Phase) (n : ℕ) (w : List ℕ) (sent : ℕ)
      → Within s n w sent
      → Within (go s p) n w sent
  Within-go s p n w sent h = record {
    before = h.before;
    used = h.used;
    out = h.out;
    session = h.session;
    text = h.text;
    line = h.line;
    served = h.served;
    output = h.output;
    bound = h.bound;
  }

  pub with_signal :
      (s : Conn C) (n : ℕ) (w : List ℕ) (sent : ℕ)
      → Within s n w sent
      → Within (record s { shutdown = true }) n w sent
  with_signal s n w sent h = record {
    before = h.before;
    used = h.used;
    out = h.out;
    session = h.session;
    text = h.text;
    line = h.line;
    served = h.served;
    output = h.output;
    bound = h.bound;
  }

  pub Holds-Ended : (s : Conn C) (p : Phase) → Holds s p → Ended s
  Holds-Ended s at_head h = Between-Ended s h
  Holds-Ended s receiving h = Between-Ended s h
  Holds-Ended s in_recv h = Between-Ended s h
  Holds-Ended s (serving n) h = Between-Ended s h.0
  Holds-Ended s (sending n w sent) h = Within-Ended s n w sent h
  Holds-Ended s (in_send n w sent) h = Within-Ended s n w sent h
  Holds-Ended s closed h = h
