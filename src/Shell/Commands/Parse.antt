-- ===== src/Shell/Commands/Parse.antt =====
-- `parse_command` splits the line and carries out the command that its first word names.
use ryanos.Prelude.{ℕ, ◌+◌, ◌<◌, ◌≤◌, ◌≡◌, refl, List, [], length, some, arith, ◌⊎◌}
use ryanos.Strings.{Bytes}
use ryanos.Strings.Spelled.{Spelled}
use ryanos.Shell.Commands.{Console, Literals, parse_command}
use ryanos.Shell.Commands.Words.{words}
use ryanos.Shell.Commands.Tokens.{Lead, tokenize-Split}
use ryanos.Shell.Commands.Dispatch.{Holds, Ran, dispatch-Ran}

-- The words of the line stand behind the pointers, no byte outside the line has changed, and the command
-- of the first word has been carried out on the rest of the system.
pub record Parsed {S W : Type 0} (console : Console S W) (literals : Literals) (fuel : ℕ)
    (m : Bytes) (args : ℕ) (text : List ℕ) (s : S) : Type 0 where
  pub m' : Bytes
  pub s' : S
  pub pointers : List ℕ
  pub returned : parse_command console literals fuel m args s ≡ some (m', s')
  pub lead : Lead m' args (args + length text) pointers (words text)
  pub kept : (j : ℕ) → (j < args) ⊎ (args + length text ≤ j) → m' j ≡ m j
  pub ran : Ran console literals fuel m' pointers (words text) s (some s')

-- In a memory of bytes whose literals lie outside the line, with fuel for two characters more than
-- the line has and at most 16 words, parse_command comes back: the words of the line stand behind the pointers, no byte
-- outside the line has changed, and the command that the first word names has been carried out, or
-- the word was printed as unknown, or nothing was done for a line without a word.
pub parse_command-Parsed :
    {S W : Type 0} (console : Console S W) (literals : Literals) (fuel : ℕ) (m : Bytes) (args : ℕ)
    (text : List ℕ) (s : S)
    → ((a : ℕ) → m a < 256)
    → ((m' : Bytes)
        → ((j : ℕ) → (j < args) ⊎ (args + length text ≤ j) → m' j ≡ m j)
        → Holds literals m')
    → Spelled m args text
    → length text + 1 < fuel
    → length (words text) ≤ 16
    → Parsed console literals fuel m args text s
unfolding parse_command
parse_command-Parsed console literals fuel m args text s bytes holds spelled enough few =
    let split =
      tokenize-Split fuel fuel m args [] text spelled (omega arith) enough (omega arith) in
    let (s', e, r) =
      dispatch-Ran console literals fuel split.m' (split.bytes bytes) (holds split.m' split.kept)
        args (args + length text) (omega arith) split.pointers (words text) s split.lead in
    record {
      m' = split.m';
      s' = s';
      pointers = split.pointers;
      returned = let first = split.returned in rw (parse_command, first, e) refl;
      lead = split.lead;
      kept = split.kept;
      ran = r;
    }
