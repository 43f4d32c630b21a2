-- ===== src/Server/Invariant.antt =====
-- The simulator keeps its areas: what `NewPLCSimulator` sets up, no request takes away.
use gofins.Base.{ℕ, ◌≡◌, true, some, List, Result, Ensures}
use gofins.Area.{is_word_area, is_bit_area}
use gofins.Protocol.{Response}
use gofins.Server.{Server, AreaMap, Buffer, new_plc_simulator}

-- The maps hold a buffer for the simulator's own areas.
pub record IsValid (s : Server) : Type 0 where
  pub words_kept :
      (area : ℕ) → is_word_area area ≡ true → (buf : Buffer) × (s.word_areas area ≡ some buf)
  pub bits_kept :
      (area : ℕ) → is_bit_area area ≡ true → (buf : Buffer) × (s.bit_areas area ≡ some buf)

-- A new simulator has all its areas.
pub new_plc_simulator-IsValid : IsValid new_plc_simulator
unfolding new_plc_simulator
new_plc_simulator-IsValid = record {
  words_kept = λ area h. ((λ _. 0), rw h);
  bits_kept = λ area h. ((λ _. 0), rw h);
}

abbrev Keeps : AreaMap → AreaMap → Type 0
Keeps old new =
    (area : ℕ) (buf : Buffer) → old area ≡ some buf → (buf' : Buffer) × (new area ≡ some buf')

-- Whatever the call returns, no area is lost.
abbrev Kept : AreaMap → Result (ℕ × AreaMap) → Type 0
Kept old = Ensures (λ x. Keeps old (x.1))

abbrev WriteIsValid : ℕ × Server → Type 0
WriteIsValid x = IsValid (x.1)

abbrev AnswerIsValid : List ℕ × ℕ × Server → Type 0
AnswerIsValid x = IsValid (x.2)

abbrev ValidAfter : Result (ℕ × Server) → Type 0
ValidAfter = Ensures WriteIsValid

abbrev ValidAnswer : Result (List ℕ × ℕ × Server) → Type 0
ValidAnswer = Ensures AnswerIsValid

abbrev ResponseIsValid : Response × Server → Type 0
ResponseIsValid x = IsValid (x.1)

abbrev ReplyIsValid : List ℕ × Server → Type 0
ReplyIsValid x = IsValid (x.1)
