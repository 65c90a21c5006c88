-- ===== src/Base/Bytes.antt =====
-- The bytes of a Go string. A text is a list of code points; a byte `b` that is no part of UTF-8 is
-- the number 0x110000 + b. `len` and slicing count bytes.
use Prim.Native.Nat.{ℕ, zero, suc, ◌+◌, ◌-◌, ◌/◌, ◌%◌, ◌^◌, ◌≤◌}
use mathlib.Core.Path.{◌≡◌, refl}
use mathlib.Core.Option.{Option, none, some}
use mathlib.Core.List.{[], ◌∷◌, ◌++◌}
use native.Mathlib.Omega.{arith}
use nexus_mail.Base.Tests.{ltb, leb, if◌then◌else◌}
use nexus_mail.Base.Text.{Text}

-- How many bytes a code point takes.
unfoldable pub width : ℕ → ℕ
width c =
    if ltb c 0x80
    then 1
    else if ltb c 0x800
    then 2
    else if ltb c 0x10000
    then 3
    else if ltb c 0x110000
    then 4
    else 1

pub width-pos : (c : ℕ) → 1 ≤ width c
unfolding width
width-pos c = ground arith

-- `len(s)`.
unfoldable pub byte_len : Text → ℕ
unfolding width
byte_len [] = 0
byte_len (c ∷ s) = width c + byte_len s

-- The last bytes of a code point, each on its own.
unfoldable pub trailing : ℕ → ℕ → Text
trailing zero c = []
trailing (suc n) c = (0x110080 + (c / 64 ^ n) % 64) ∷ trailing n c

-- `s[n:]`: `none` where the source panics. A cut inside a code point leaves its last bytes.
unfoldable pub drop_bytes : ℕ → Text → Option Text
unfolding width trailing
drop_bytes zero s = some s
drop_bytes (suc n) [] = none
drop_bytes (suc n) (c ∷ s) =
    let rest = drop_bytes (suc n - width c) s in
    if leb (width c) (suc n) then rest else some (trailing (width c - suc n) c ++ s)

pub byte_len-append : (s t : Text) → byte_len (s ++ t) ≡ byte_len s + byte_len t
unfolding byte_len
byte_len-append [] t = omega arith
byte_len-append (c ∷ s) t = omega (arith, byte_len-append s t)

byte_len-trailing : (n c : ℕ) → byte_len (trailing n c) ≡ n
unfolding byte_len trailing width
byte_len-trailing zero c = refl
byte_len-trailing (suc n) c = ground (arith, byte_len-trailing n c)

pub byte_len-drop_bytes :
    (n : ℕ) (s t : Text) → drop_bytes n s ≡ some t → byte_len t + n ≡ byte_len s
unfolding byte_len drop_bytes
byte_len-drop_bytes zero s t h = ground arith
byte_len-drop_bytes (suc n) [] t h = cc
byte_len-drop_bytes (suc n) (c ∷ s) t h = ground (
  arith,
  byte_len-drop_bytes (suc n - width c) s t,
  byte_len-append (trailing (width c - suc n) c) s,
  byte_len-trailing (width c - suc n) c,
)
