-- ===== src/Server/Answers.antt =====
-- 202110421_assign5/server.c: what a client is sent, whatever the sizes in which its text arrives.
use mathlib.Core.Path.{subst}
use system_programming.Base.{ℕ, ◌≡◌, List}
use system_programming.Server.{Served, Phase, Conn}
use system_programming.Server.Session.{Session, Holds, Inv}

module _ {C : Type 0} (serve : C → List ℕ → C × Served) (start : C) where
  at : (s : Conn C) {p : Phase} → s.phase ≡ p → Inv serve start s → Holds serve start s p
  at s e h = subst (Holds serve start s) e h
