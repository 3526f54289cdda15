-- ===== src/Prelude/Mask.antt =====
-- `bit_and` with the mask of the low byte, on numbers of two bytes.
use Prim.Native.Nat.{ℕ, ◌+◌, ◌*◌, ◌/◌, ◌%◌, ◌<◌, bit_and}
use mathlib.Core.Path.{◌≡◌, refl, ap, ◌∙◌}
use mathlib.Core.Bool.{Bool, true}
use native.Mathlib.Omega.{arith}
use libelfin.Prelude.Tests.{◌==◌, ==_iff}
use libelfin.Prelude.Bits.{every, every_below}

-- The mask is right for every low byte behind the high byte.
abbrev masks : ℕ → Bool
masks high = every (λ low. bit_and (high * 256 + low) 0xff == low) 256

masks_table : every masks 256 ≡ true
unfolding every
masks_table = refl

pub low_byte : (a : ℕ) → a < 65536 → bit_and a 0xff ≡ a % 256
low_byte a h =
    let parts : a ≡ a / 256 * 256 + a % 256 = omega arith in
    let row = every_below masks 256 (a / 256) masks_table (omega arith) in
    let here =
      every_below (λ low. bit_and (a / 256 * 256 + low) 0xff == low) 256 (a % 256) row
        (omega arith) in
    ap (λ (x : ℕ). bit_and x 0xff) parts ∙ (==_iff _ _).0 here
