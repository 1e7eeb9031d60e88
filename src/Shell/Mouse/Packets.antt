-- ===== src/Shell/Mouse/Packets.antt =====
-- Bytes become packets, and the mouse stays on the screen.
use ryanos.Prelude.{
  ℕ, zero, suc, ◌<◌, ◌≤◌, ◌≡◌, refl, true, false, List, [], ◌∷◌, arith, Bool-cases, inl, inr, ltb,
  if◌then◌else◌,
}
use mathlib.Core.Path.{subst}
use ryanos.Prelude.Int.{ℤ, pos, negsuc}
use ryanos.Prelude.Bits.Fields.{below_pow, and_zero}
use ryanos.Shell.Mouse.{Mouse, not_first_byte, handle_mouse, raise, lower, process_mouse_packet}

-- The bytes in the order of their interrupts.
unfoldable pub handle_all : List ℕ → Mouse → Mouse
handle_all [] m = m
handle_all (b ∷ bs) m = handle_all bs (handle_mouse b m)

-- A packet of three bytes that waits to be processed.
abbrev pub waiting : ℕ → ℕ → ℕ → Mouse → Mouse
waiting a b c m = record m {
  packet0 = a;
  packet1 = b;
  packet2 = c;
  mouse_packet_ready = true;
  mouse_cycle = 0;
}

-- The test for a first byte never fails.
not_first_byte-false : (b : ℕ) → not_first_byte b ≡ false
unfolding not_first_byte
not_first_byte-false b = let z = and_zero b b (below_pow b) in ground arith

handle_all-waiting :
    (a b c : ℕ) (rest : List ℕ) (m : Mouse) → handle_all rest (waiting a b c m) ≡ waiting a b c m
unfolding handle_all handle_mouse
handle_all-waiting a b c [] m = refl
handle_all-waiting a b c (d ∷ rest) m = handle_all-waiting a b c rest m

-- When no packet waits and none has begun, the next three bytes are the packet, whatever the first
-- one is, and all bytes behind them are lost until the packet is processed.
pub handle_all_lem :
    (a b c : ℕ) (rest : List ℕ) (m : Mouse)
    → m.mouse_cycle ≡ 0
    → m.mouse_packet_ready ≡ false
    → handle_all (a ∷ b ∷ c ∷ rest) m ≡ waiting a b c m
unfolding handle_all handle_mouse
handle_all_lem a b c rest m start free =
    rw (start, free, not_first_byte-false a, handle_all) (handle_all-waiting a b c rest m)

-- The position is not below 0, and below the size.
abbrev pub IsInside : ℕ → ℤ → Type 0
IsInside size v = (n : ℕ) × (v ≡ pos n) × (n < size)

bounded-IsInside : (size : ℕ) (v : ℤ) → 0 < size → IsInside size (lower size (raise v))
unfolding lower raise
bounded-IsInside zero v h = absurd (omega arith)
bounded-IsInside (suc last) (negsuc n) h = (0, rw_zero, omega arith)
  where
    rw_zero : (if ltb last 0 then pos last else pos 0) ≡ pos 0
    rw_zero = let not_past : ltb last 0 ≡ false = ground arith in rw not_past refl
bounded-IsInside (suc last) (pos n) h = elim (Bool-cases (ltb last n)) [
  | inl past ↦ (last, rw past refl, omega arith)
  | inr within ↦ (n, rw within refl, ground arith)
]

-- A packet waits only when no other has begun, and the mouse is on the screen.
pub record IsOnScreen (width height : ℕ) (m : Mouse) : Type 0 where
  pub cycle : m.mouse_cycle ≤ 2
  pub waits : m.mouse_packet_ready ≡ true → m.mouse_cycle ≡ 0
  pub inside_x : IsInside width m.x
  pub inside_y : IsInside height m.y

kept_x : (b : ℕ) (m : Mouse) → m.x ≡ (handle_mouse b m).x
unfolding handle_mouse
kept_x b m = ground arith

kept_y : (b : ℕ) (m : Mouse) → m.y ≡ (handle_mouse b m).y
unfolding handle_mouse
kept_y b m = ground arith

module _ (width height : ℕ) where
  -- An interrupt with a byte, or a round of the shell's loop.
  pub data Step (m : Mouse) : Mouse → Type 0 where
    interrupt : (b : ℕ) → Step m (handle_mouse b m)
    round : Step m (process_mouse_packet width height m)

  pub data Reach (m : Mouse) : Mouse → Type 0 where
    here : Reach m m
    next : {g h : Mouse} → Reach m g → Step g h → Reach m h

  handle_mouse-IsOnScreen :
      (b : ℕ) (m : Mouse) → IsOnScreen width height m → IsOnScreen width height (handle_mouse b m)
  unfolding handle_mouse
  handle_mouse-IsOnScreen b m v = record {
    cycle = ground (arith, v.cycle);
    waits = ground (arith, v.waits, v.cycle);
    inside_x = subst (IsInside width) (kept_x b m) v.inside_x;
    inside_y = subst (IsInside height) (kept_y b m) v.inside_y;
  }

  process_mouse_packet-IsOnScreen :
      (m : Mouse)
      → IsOnScreen width height m
      → IsOnScreen width height (process_mouse_packet width height m)
  unfolding process_mouse_packet
  process_mouse_packet-IsOnScreen m v = elim (Bool-cases m.mouse_packet_ready) [
    | inr idle ↦ simp idle v
    | inl ready ↦ simp ready (record {
      cycle = v.cycle;
      waits = λ e. v.waits ready;
      inside_x = bounded-IsInside width _ (let below = v.inside_x.2 in omega (arith, below));
      inside_y = bounded-IsInside height _ (let below = v.inside_y.2 in omega (arith, below));
    })
  ]

  -- However interrupts and rounds of the shell's loop follow each other, a mouse that is on the
  -- screen stays on it, and a packet waits only when no other has begun.
  pub Reach-IsOnScreen :
      {m g : Mouse} → IsOnScreen width height m → Reach m g → IsOnScreen width height g
  Reach-IsOnScreen v here = v
  Reach-IsOnScreen v (next {g} r (interrupt b)) = handle_mouse-IsOnScreen b g (Reach-IsOnScreen v r)
  Reach-IsOnScreen v (next {g} r round) = process_mouse_packet-IsOnScreen g (Reach-IsOnScreen v r)
