-- ===== src/Shell/Commands/Tests.antt =====
-- A memory with the texts of the code at its start and a command line behind them.
use ryanos.Prelude.{
  ℕ, zero, suc, ◌+◌, ◌<◌, ◌≤◌, ◌≡◌, refl, Bool, true, List, [], ◌∷◌, ◌++◌, length, none, some,
  arith, ltb, leb, ◌&&◌, if◌then◌else◌, ◌⊎◌, inl,
}
use ryanos.Prelude.Int.{pos}
use ryanos.Strings.{Bytes}
use ryanos.Strings.Spelled.{Spelled, Spelled-same}
use ryanos.Shell.Commands.{Console, Literals, strtoi}
use ryanos.Shell.Commands.Words.{words_from, words}
use ryanos.Shell.Commands.Number.{Digits, value, limit, signed, strtoi_lem}
use ryanos.Shell.Commands.Dispatch.{Holds, echo_text, clear_text, window_text, windowcolor_text}
use ryanos.Shell.Commands.Parse.{Parsed, parse_command-Parsed}

abbrev nth : List ℕ → ℕ → ℕ
nth [] n = 0
nth (c ∷ cs) zero = c
nth (c ∷ cs) (suc n) = nth cs n

abbrev all_bytes : List ℕ → Bool
all_bytes [] = true
all_bytes (c ∷ cs) = ltb c 256 && all_bytes cs

nth-lt : (cs : List ℕ) (n : ℕ) → all_bytes cs ≡ true → nth cs n < 256
nth-lt [] n h = omega arith
nth-lt (c ∷ cs) zero h = ground arith
nth-lt (c ∷ cs) (suc n) h = nth-lt cs n (ground arith)

-- " clear  now"
abbrev line : List ℕ
line = b' ' ∷ clear_text ++ (b' ' ∷ b' ' ∷ b'n' ∷ b'o' ∷ b'w' ∷ [])

abbrev texts : List ℕ
texts =
    echo_text
    ++ (0 ∷ clear_text
        ++ (0 ∷ window_text
            ++ (0 ∷ windowcolor_text
                ++ (0 ∷ b'r' ∷ b'e' ∷ b'd' ∷ 0 ∷ b'g' ∷ b'r' ∷ b'e' ∷ b'e' ∷ b'n' ∷ 0 ∷ b'b' ∷ b'l'
                    ∷ b'u' ∷ b'e' ∷ 0 ∷ line))))

abbrev memory : Bytes
memory = nth texts

abbrev literals : Literals
literals = record {
  echo = 0;
  clear = 5;
  window = 11;
  windowcolor = 18;
  red = 30;
  green = 34;
  blue = 40;
}

-- The system counts what was cleared.
abbrev console : Console ℕ ℕ
console = record {
  print = λ m a s. s;
  print_text = λ t s. s;
  clear = λ s. s + 1;
  make_window = λ s. s;
  get_from_id = λ n s. none;
  paint = λ w c s. s;
}

module _ (m' : Bytes) (same : (j : ℕ) → (j < 45) ⊎ (45 + length line ≤ j) → m' j ≡ memory j) where
  below : (p : ℕ) (t : List ℕ) → p + length t < 45 → Spelled memory p t → Spelled m' p t
  below p t l = Spelled-same memory m' p t (λ a low high. same a (inl (omega arith)))

  literals-Holds : Holds literals m'
  literals-Holds = record {
    echo = below 0 echo_text (omega arith) (omega arith);
    clear = below 5 clear_text (omega arith) (omega arith);
    window = below 11 window_text (omega arith) (omega arith);
    windowcolor = below 18 windowcolor_text (omega arith) (omega arith);
    red = below 30 (b'r' ∷ b'e' ∷ b'd' ∷ []) (omega arith) (omega arith);
    green = below 34 (b'g' ∷ b'r' ∷ b'e' ∷ b'e' ∷ b'n' ∷ []) (omega arith) (omega arith);
    blue = below 40 (b'b' ∷ b'l' ∷ b'u' ∷ b'e' ∷ []) (omega arith) (omega arith);
  }

few_words : length (words line) ≤ 16
unfolding words_from
few_words = omega arith

parse_command-Parsed_example : Parsed console literals 20 memory 45 line 7
parse_command-Parsed_example =
    parse_command-Parsed console literals 20 memory 45 line 7 (λ a. nth-lt texts a refl)
      literals-Holds (omega arith) (omega arith) few_words

-- "-2147483648", the least int.
abbrev least : Bytes
least = nth (b'-' ∷ b'2' ∷ b'1' ∷ b'4' ∷ b'7' ∷ b'4' ∷ b'8' ∷ b'3' ∷ b'6' ∷ b'4' ∷ b'8' ∷ [])

abbrev least_digits : List ℕ
least_digits = 2 ∷ 1 ∷ 4 ∷ 7 ∷ 4 ∷ 8 ∷ 3 ∷ 6 ∷ 4 ∷ 8 ∷ []

least-Digits : Digits least 1 least_digits
least-Digits = ground arith

strtoi_lem_example :
    strtoi 11 least 0
    ≡ some
        (if leb (value least_digits) (limit true) then signed true (value least_digits) else pos 0)
strtoi_lem_example = strtoi_lem 11 least 0 least_digits least-Digits (omega arith)
