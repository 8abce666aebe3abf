-- ===== src/Kcp/Channel/Pipe.antt =====
-- The promise of one direction of a connection: a pipe that bytes are written into and read out of
-- in order.
use gzv2ray_v.Prelude.{ℕ, List, [], ◌∷◌, ◌++◌, ◌≡◌}

-- What was written into the pipe, and what was read out of it, since it was opened.
pub record Pipe : Type 0 where
  pub written : List ℕ
  pub taken : List ℕ

pub data Action : Type 0 where
  writes : List ℕ → Action
  takes : List ℕ → Action
  rests : Action

-- A pipe takes every write, hands on bytes that continue what was read so far and were written, and
-- else changes nothing.
pub data Does : Action → Pipe → Pipe → Type 0 where
  writing :
      {b : List ℕ} {p q : Pipe} → q ≡ record p { written = p.written ++ b } → Does (writes b) p q
  taking :
      {b : List ℕ} {p q : Pipe} (rest : List ℕ)
      → (p.taken ++ b) ++ rest ≡ p.written
      → q ≡ record p { taken = p.taken ++ b }
      → Does (takes b) p q
  resting : {p q : Pipe} → q ≡ p → Does rests p q

pub data Acts : List Action → Pipe → Pipe → Type 0 where
  stop : {p : Pipe} → Acts [] p p
  more :
      {a : Action} {actions : List Action} {p q r : Pipe}
      → Does a p q
      → Acts actions q r
      → Acts (a ∷ actions) p r
